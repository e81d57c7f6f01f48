-- ===== src/Types/Text.antt =====
-- The textual form of an identifier in pkg/types/blob.go. The base-36 code is that of
-- github.com/multiformats/go-base36: the parameter `Base36`. A text is the list of its bytes.
use blobcast.Prelude.{
  ℕ, ◌≤◌, ◌≡◌, refl, ap, Bool, true, false, Option, none, some, List, [], ◌∷◌, ◌++◌, length, ◌&&◌,
  drop, ◌==◌, if◌then◌else◌, drop-append, arith,
}
use blobcast.Prelude.Outcome.{Outcome, ok, err}
use blobcast.Types.Blob.{
  BlobIdentifier, IsBlobIdentifier, blob_bytes, length-blob_bytes, blob_identifier_from_bytes,
  blob_identifier_from_bytes-blob_bytes,
}

-- What the code uses of go-base36: an input of at least one byte reads back.
pub record Base36 : Type 0 where
  pub encode : List ℕ → List ℕ
  pub decode : List ℕ → Option (List ℕ)
  pub decode-encode : (b : List ℕ) → 1 ≤ length b → decode (encode b) ≡ some b

pub data TextError : Type 0 where
  invalid_identifier invalid_base36 invalid_url : TextError

-- `strings.HasPrefix` and `strings.TrimPrefix`
unfoldable pub has_prefix : List ℕ → List ℕ → Bool
has_prefix s [] = true
has_prefix [] (p ∷ ps) = false
has_prefix (c ∷ s) (p ∷ ps) = (c == p) && has_prefix s ps

unfoldable pub trim_prefix : List ℕ → List ℕ → List ℕ
trim_prefix s p = if has_prefix s p then drop (length p) s else s

abbrev pub identifier_prefix : List ℕ
identifier_prefix = b'b' ∷ b'c' ∷ []

-- "blobcast://"
abbrev pub url_prefix : List ℕ
url_prefix = b'b' ∷ b'l' ∷ b'o' ∷ b'b' ∷ b'c' ∷ b'a' ∷ b's' ∷ b't' ∷ b':' ∷ b'/' ∷ b'/' ∷ []

module _ (C : Base36) where
  unfoldable pub id : BlobIdentifier → List ℕ
  id b = identifier_prefix ++ C.encode (blob_bytes b)

  unfoldable pub url : BlobIdentifier → List ℕ
  url b = url_prefix ++ id b

  decoded : Option (List ℕ) → Outcome TextError BlobIdentifier
  decoded none = err invalid_base36
  decoded (some serialized) = ok (blob_identifier_from_bytes serialized)

  unfoldable pub blob_identifier_from_string : List ℕ → Outcome TextError BlobIdentifier
  unfolding decoded
  blob_identifier_from_string encoded =
      if has_prefix encoded identifier_prefix
      then decoded (C.decode (trim_prefix encoded identifier_prefix))
      else err invalid_identifier

  unfoldable pub blob_identifier_from_url : List ℕ → Outcome TextError BlobIdentifier
  blob_identifier_from_url u =
      if has_prefix u url_prefix
      then blob_identifier_from_string (trim_prefix u url_prefix)
      else err invalid_url

has_prefix-append : (p s : List ℕ) → has_prefix (p ++ s) p ≡ true
unfolding has_prefix
has_prefix-append [] s = refl
has_prefix-append (c ∷ p) s = ground (arith, has_prefix-append p s)

trim_prefix-append : (p s : List ℕ) → trim_prefix (p ++ s) p ≡ s
unfolding trim_prefix
trim_prefix-append p s = rw has_prefix-append (drop-append p s)

-- An identifier with a uint64 height and a 32-byte commitment reads back from its text, and from
-- its URL.
pub blob_identifier_from_string-id :
    (C : Base36) (b : BlobIdentifier)
    → IsBlobIdentifier b
    → (blob_identifier_from_string C (id C b) ≡ ok b)
      × (blob_identifier_from_url C (url C b) ≡ ok b)
unfolding blob_identifier_from_url url
blob_identifier_from_string-id C b v =
    (text, rw (has_prefix-append url_prefix (id C b), trim_prefix-append url_prefix (id C b)) text)
  where
    text : blob_identifier_from_string C (id C b) ≡ ok b
    text =
        unfold blob_identifier_from_string id decoded in
        rw
          (
            has_prefix-append identifier_prefix (C.encode (blob_bytes b)),
            trim_prefix-append identifier_prefix (C.encode (blob_bytes b)),
            C.decode-encode (blob_bytes b) (omega (arith, length-blob_bytes b v)),
          )
          (ap ok (blob_identifier_from_bytes-blob_bytes b v))
