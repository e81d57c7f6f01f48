-- ===== src/Upload/Pieces.antt =====
-- The loops of `PutFileData` in pkg/sync/sync.go over the chunks of a file: what they submit and
-- what they list.
use blobcast.Prelude.{
  ℕ, ◌≡◌, refl, sym, Option, none, some, List, [], ◌∷◌, Bool, true, false, inl, inr, ◌⊎◌,
}
use mathlib.Core.Path.{subst}
use blobcast.Prelude.Outcome.{ok, bind-eq-ok}
use blobcast.Crypto.{Blake3, Hash, hash_bytes}
use blobcast.Types.Blob.{BlobIdentifier, blob_identifier_proto}
use blobcast.Types.Text.{Base36}
use blobcast.State.Store.{Pebble, ChunkReference, Envelope, chunk_data}
use blobcast.Upload.Records.{UploadRecord, Json, Res, or_error, marshalling, get_upload_record}
use blobcast.Upload.File.{
  Piece, chunk_key_prefix, submitted_payloads, identifier_of, piece_payload, prepare, references,
}

-- A result that is known is the value.
pub ok_injective : {A : Type 0} (a b : A) → ◌≡◌ {A = Res A} (ok a) (ok b) → a ≡ b
ok_injective a b h = cc

module _ (P : Pebble) (J : Json) (B : Blake3) (C : Base36)
    (marshal : Envelope → Option (List ℕ)) where
  abbrev pub chunk_key : List ℕ → Hash
  chunk_key chunk = hash_bytes B (chunk_key_prefix ∷ hash_bytes B (chunk ∷ []) ∷ [])

  -- References that name the chunks, in their order, by their hashes and by the identifiers that
  -- are recorded for them.
  abbrev pub Refer : P.Db → List ChunkReference → List (List ℕ) → Type 0
  Refer db [] [] = Unit {0}
  Refer db [] (c ∷ chunks) = ⊥
  Refer db (ref ∷ refs) [] = ⊥
  Refer db (ref ∷ refs) (c ∷ chunks) =
      (ref.chunk_hash ≡ hash_bytes B (c ∷ []))
      × ((r : UploadRecord) × (b : BlobIdentifier) × (get_upload_record P J db (chunk_key c) ≡ ok r)
          × (identifier_of P J B C marshal r ≡ ok b)
          × (ref.id ≡ some (blob_identifier_proto b)))
      × Refer db refs chunks

  -- Payloads that are the chunks without a completed record, in their order.
  abbrev pub Missing : P.Db → List (List ℕ) → List (List ℕ) → Type 0
  Missing db [] payloads = payloads ≡ []
  Missing db (c ∷ chunks) payloads =
      (r : UploadRecord) × (get_upload_record P J db (chunk_key c) ≡ ok r)
      × (((r.completed ≡ true) × Missing db chunks payloads)
          ⊎ ((bytes : List ℕ) × (rest : List (List ℕ)) × (r.completed ≡ false)
              × (marshal (chunk_data c) ≡ some bytes)
              × (payloads ≡ bytes ∷ rest)
              × Missing db chunks rest))

  abbrev pub Hashed : List Piece → List (List ℕ) → Type 0
  Hashed [] [] = Unit {0}
  Hashed [] (c ∷ chunks) = ⊥
  Hashed (p ∷ pieces) [] = ⊥
  Hashed (p ∷ pieces) (c ∷ chunks) =
      (p.hash ≡ hash_bytes B (c ∷ [])) × (p.key ≡ chunk_key c) × Hashed pieces chunks

  or_error-eq-ok : (o : Option (List ℕ)) (a : List ℕ) → or_error marshalling o ≡ ok a → o ≡ some a
  or_error-eq-ok none a h = cc
  or_error-eq-ok (some b) a h = cc

  -- One round of the loop that submits: the chunk's entry, and what its payload says.
  abbrev Lacks : P.Db → List ℕ → Option (List ℕ) → Type 0
  Lacks db c payload =
      (r : UploadRecord) × (get_upload_record P J db (chunk_key c) ≡ ok r)
      × (((r.completed ≡ true) × (payload ≡ none))
          ⊎ ((bytes : List ℕ) × (r.completed ≡ false)
              × (marshal (chunk_data c) ≡ some bytes)
              × (payload ≡ some bytes)))

  piece_payload-Lacks :
      (db : P.Db) (c : List ℕ) (r : UploadRecord) (payload : Option (List ℕ)) (done : Bool)
      → get_upload_record P J db (chunk_key c) ≡ ok r
      → r.completed ≡ done
      → piece_payload P J B C marshal done c ≡ ok payload
      → Lacks db c payload
  unfolding piece_payload
  piece_payload-Lacks db c r payload true read is h =
      (r, read, inl (is, sym (ok_injective none payload h)))
  piece_payload-Lacks db c r payload false read is h =
      let (bytes, e, h1) = bind-eq-ok (or_error marshalling (marshal (chunk_data c))) _ h in
      (
        r,
        read,
        inr (
          bytes,
          is,
          or_error-eq-ok (marshal (chunk_data c)) bytes e,
          sym (ok_injective (some bytes) payload h1),
        ),
      )

  Lacks-Missing :
      (db : P.Db) (c : List ℕ) (chunks : List (List ℕ)) (p : Piece) (pieces : List Piece)
      → Lacks db c p.payload
      → Missing db chunks (submitted_payloads pieces)
      → Missing db (c ∷ chunks) (submitted_payloads (p ∷ pieces))
  unfolding submitted_payloads
  Lacks-Missing db c chunks p pieces (r, read, inl (is, e)) rest = (r, read, inl (is, rw e rest))
  Lacks-Missing db c chunks p pieces (r, read, inr (bytes, is, made, e)) rest =
      (r, read, inr (bytes, submitted_payloads pieces, is, made, rw e refl, rest))

  pub prepare-Missing :
      (db : P.Db) (chunks : List (List ℕ)) (pieces : List Piece)
      → prepare P J B C marshal db chunks ≡ ok pieces
      → Hashed pieces chunks × Missing db chunks (submitted_payloads pieces)
  unfolding prepare submitted_payloads
  prepare-Missing db [] pieces h =
      subst (λ ps. Hashed ps [] × Missing db [] (submitted_payloads ps)) (ok_injective [] pieces h)
        (tt, refl)
  prepare-Missing db (c ∷ chunks) pieces h =
      let (r, read, h1) = bind-eq-ok (get_upload_record P J db (chunk_key c)) _ h in
      let (payload, made, h2) = bind-eq-ok (piece_payload P J B C marshal r.completed c) _ h1 in
      let (rest, prepared, h3) = bind-eq-ok (prepare P J B C marshal db chunks) _ h2 in
      let p : Piece = record {
        hash = hash_bytes B (c ∷ []);
        key = chunk_key c;
        payload = payload;
      } in
      let (hashed, missing) = prepare-Missing db chunks rest prepared in
      subst (λ ps. Hashed ps (c ∷ chunks) × Missing db (c ∷ chunks) (submitted_payloads ps))
        (ok_injective (p ∷ rest) pieces h3)
        (
          (refl, refl, hashed),
          Lacks-Missing db c chunks p rest
              (piece_payload-Lacks db c r payload r.completed read refl made) missing,
        )

  pub references-Refer :
      (db : P.Db) (chunks : List (List ℕ)) (pieces : List Piece) (refs : List ChunkReference)
      → Hashed pieces chunks
      → references P J B C marshal db pieces ≡ ok refs
      → Refer db refs chunks
  unfolding references
  references-Refer db [] [] refs hashed h = subst (λ rs. Refer db rs []) (ok_injective [] refs h) tt
  references-Refer db (c ∷ chunks) [] refs hashed h = absurd hashed
  references-Refer db [] (p ∷ pieces) refs hashed h = absurd hashed
  references-Refer db (c ∷ chunks) (p ∷ pieces) refs (same_hash, same_key, hashed) h =
      let (r, read, h1) = bind-eq-ok (get_upload_record P J db p.key) _ h in
      let (b, parsed, h2) = bind-eq-ok (identifier_of P J B C marshal r) _ h1 in
      let (rest, referred, h3) = bind-eq-ok (references P J B C marshal db pieces) _ h2 in
      let ref : ChunkReference = record {
        id = some (blob_identifier_proto b);
        chunk_hash = p.hash;
      } in
      subst (λ rs. Refer db rs (c ∷ chunks)) (ok_injective (ref ∷ rest) refs h3)
        (
          same_hash,
          (r, b, rw (sym same_key) read, parsed, refl),
          references-Refer db chunks pieces rest hashed referred,
        )
