-- ===== src/Runs/Toy.antt =====
-- Concrete functions for the parameters of the model.
use blobcast.Prelude.{
  ℕ, zero, suc, ◌+◌, ◌%◌, ◌≡◌, refl, ap, sym, ◌∙◌, false, Option, none, some, List, [], ◌∷◌, ◌++◌,
  length, arith,
}
use blobcast.Crypto.{Blake3, is_zero, bytes_equal}
use blobcast.Types.Text.{Base36}
use blobcast.State.Transaction.Synced.{last_write-append}
use blobcast.State.Store.{Pebble, Batch, not_found, last_write}

abbrev pad : ℕ → List ℕ → List ℕ
pad zero d = []
pad (suc n) [] = 0 ∷ pad n []
pad (suc n) (b ∷ d) = b ∷ pad n d

pub length-pad : (n : ℕ) (d : List ℕ) → length (pad n d) ≡ n
length-pad zero d = refl
length-pad (suc n) [] = ap suc (length-pad n [])
length-pad (suc n) (b ∷ d) = ap suc (length-pad n d)

-- A byte for the length, which is never 0, and the first 31 bytes of the input.
abbrev pub toy_blake3 : Blake3
toy_blake3 = record {
  sum256 = λ d. pad 32 ((length d % 255 + 1) ∷ d);
  sum256_length = λ d. length-pad 32 ((length d % 255 + 1) ∷ d);
}

pub toy_never_zero : (d : List ℕ) → is_zero (toy_blake3.sum256 d) ≡ false
unfolding is_zero bytes_equal
toy_never_zero d = ground arith

-- The text is the bytes themselves.
abbrev pub toy_base36 : Base36
toy_base36 = record { encode = λ b. b; decode = λ b. some b; decode-encode = λ b h. refl }

pub toy_commit :
    (db db' ops : Batch) (key : List ℕ)
    → ◌≡◌ {A = Option Batch} (some (db ++ ops)) (some db')
    → last_write key db' not_found ≡ last_write key ops (last_write key db not_found)
toy_commit db db' ops key e =
    ap (λ o. last_write key o not_found) (sym (cc e)) ∙ last_write-append key db ops not_found

-- A database is the list of its writes. It has no iterator.
abbrev pub toy_pebble : Pebble
toy_pebble = record {
  Db = Batch;
  get = λ db key. last_write key db not_found;
  spare = λ db key. [];
  commit = λ db ops. some (db ++ ops);
  last_in = λ db lower upper. none;
  get-commit = λ db db' ops key e. toy_commit db db' ops key e;
}
