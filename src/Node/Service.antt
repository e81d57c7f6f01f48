-- ===== src/Node/Service.antt =====
-- pkg/grpc/storage/server.go: the storage service, which passes the reads of pkg/api/node on.
use blobcast.Prelude.{
  ℕ, ◌≤◌, ◌≡◌, refl, ◌↔◌, List, [], ◌∷◌, Bool-cases, inl, inr, length, ltb, if◌then◌else◌, arith,
}
use mathlib.Core.Path.{subst}
use blobcast.Prelude.Outcome.{Outcome, ok, err, panic, ◌>>=◌, bind-eq-ok}
use blobcast.Crypto.{Blake3}
use blobcast.Types.Blob.{BlobIdentifier}
use blobcast.Types.Text.{Base36, blob_identifier_from_string}
use blobcast.State.Store.{Pebble, Protobuf, ChunkReference, FileManifest, DirectoryManifest}
use blobcast.State.Chain
use blobcast.Node.{
  Answer, get_chunk_data, get_chunk_reference, get_file_data, node_directory_manifest,
  node_file_manifest,
}

-- The codes of gRPC that are used.
pub data Code : Type 0 where
  invalid_argument internal : Code

abbrev pub Response : Type 0 → Type 0
Response A = Outcome Code A

unfoldable pub with_code : {E A : Type 0} → Code → Outcome E A → Response A
with_code code (ok a) = ok a
with_code code (err e) = err code
with_code code panic = panic

known : {A : Type 0} (a b : A) → ◌≡◌ {A = Response A} (ok a) (ok b) → a ≡ b
known a b h = cc

-- The most that `GetFileData` can allocate is `most`.
module _ (P : Pebble) (s : Chain.ChainState P) (M : Protobuf) (B : Blake3) (C : Base36)
    (most : ℕ) where
  -- The request's identifier, and what a read of the node comes to for it.
  unfoldable pub respond : {A : Type 0} → (BlobIdentifier → Answer A) → List ℕ → Response A
  unfolding with_code
  respond read text = do
    b ← with_code invalid_argument (blob_identifier_from_string C text)
    with_code internal (read b)

  unfoldable pub serve_directory_manifest : List ℕ → Response DirectoryManifest
  serve_directory_manifest = respond (node_directory_manifest P s M)

  unfoldable pub serve_file_manifest : List ℕ → Response FileManifest
  serve_file_manifest = respond (node_file_manifest P s M)

  unfoldable pub serve_file_data : List ℕ → Response (List ℕ)
  serve_file_data = respond (get_file_data P s M B most)

  unfoldable pub serve_chunk_reference : List ℕ → Response (ChunkReference × ℕ)
  serve_chunk_reference = respond (get_chunk_reference P s)

  unfoldable pub serve_chunk_data : List ℕ → Response (List ℕ)
  serve_chunk_data = respond (get_chunk_data P s)

  -- The loop of a batch: each manifest with the text that asked for it.
  unfoldable pub batch_manifests : List (List ℕ) → Response (List (List ℕ × FileManifest))
  unfolding with_code
  batch_manifests [] = ok []
  batch_manifests (text ∷ texts) = do
    b ← with_code invalid_argument (blob_identifier_from_string C text)
    m ← with_code internal (node_file_manifest P s M b)
    ms ← batch_manifests texts
    ok ((text, m) ∷ ms)

  unfoldable pub batch_get_file_manifest : List (List ℕ) → Response (List (List ℕ × FileManifest))
  batch_get_file_manifest texts =
      if ltb 1000 (length texts) then err invalid_argument else batch_manifests texts

  -- The answers that single requests get, in the order of the requests.
  abbrev pub Single : List (List ℕ) → List (List ℕ × FileManifest) → Type 0
  Single [] [] = Unit {0}
  Single [] (m ∷ ms) = ⊥
  Single (text ∷ texts) [] = ⊥
  Single (text ∷ texts) ((asked, m) ∷ ms) =
      (asked ≡ text) × (serve_file_manifest text ≡ ok m) × Single texts ms

  batch_manifests-Single :
      (texts : List (List ℕ)) (ms : List (List ℕ × FileManifest))
      → batch_manifests texts ≡ ok ms
      → Single texts ms
  unfolding batch_manifests serve_file_manifest respond
  batch_manifests-Single [] ms h = subst (Single []) (known [] ms h) tt
  batch_manifests-Single (text ∷ texts) ms h =
      let (b, parsed, h1) =
        bind-eq-ok (with_code invalid_argument (blob_identifier_from_string C text)) _ h in
      let (m, read, h2) = bind-eq-ok (with_code internal (node_file_manifest P s M b)) _ h1 in
      let (rest, others, h3) = bind-eq-ok (batch_manifests texts) _ h2 in
      subst (Single (text ∷ texts)) (known ((text, m) ∷ rest) ms h3)
        (refl, rw parsed read, batch_manifests-Single texts rest others)

  Single-batch_manifests :
      (texts : List (List ℕ)) (ms : List (List ℕ × FileManifest))
      → Single texts ms
      → batch_manifests texts ≡ ok ms
  unfolding batch_manifests serve_file_manifest respond
  Single-batch_manifests [] [] h = refl
  Single-batch_manifests [] (m ∷ ms) h = absurd h
  Single-batch_manifests (text ∷ texts) [] h = absurd h
  Single-batch_manifests (text ∷ texts) ((asked, m) ∷ ms) (same, served, rest) =
      let (b, parsed, read) =
        bind-eq-ok (with_code invalid_argument (blob_identifier_from_string C text)) _ served in
      rw (parsed, read, Single-batch_manifests texts ms rest, same) refl

  -- A batch is answered exactly if it asks for at most 1000 manifests and each of them is served
  -- alone, and then with these manifests, each beside its identifier, in the order of the request.
  pub batch_get_file_manifest_iff :
      (texts : List (List ℕ)) (ms : List (List ℕ × FileManifest))
      → (batch_get_file_manifest texts ≡ ok ms) ↔ ((length texts ≤ 1000) × Single texts ms)
  unfolding batch_get_file_manifest
  batch_get_file_manifest_iff texts ms = elim (Bool-cases (ltb 1000 (length texts))) [
    | inl many ↦ (λ h. absurd (cc (rw many at h)), λ (few, _). ground (arith, many, few))
    | inr few ↦ (
      λ h. (ground (arith, few), batch_manifests-Single texts ms (rw few at h)),
      λ (_, h). rw few (Single-batch_manifests texts ms h),
    )
  ]
