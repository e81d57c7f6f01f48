-- ===== src/Node/Checked.antt =====
-- `GetFileData` of pkg/api/node/file.go: what its answer is.
use blobcast.Prelude.{
  ℕ, ◌≡◌, refl, sym, ap, ◌∙◌, Option, none, some, List, [], ◌∷◌, ◌++◌, append_assoc, append-nil,
  Bool, true, false, Bool-cases, inl, inr, length, ltb, ◌==◌, ==_iff, if◌then◌else◌,
}
use blobcast.Prelude.Outcome.{ok, err, panic, bind-eq-ok}
use blobcast.Crypto.{Blake3, hash_bytes, equal_bytes}
use blobcast.Types.Blob.{BlobIdentifier}
use blobcast.State.Store.{Pebble, Protobuf, ChunkReference, FileManifest}
use blobcast.State.Chain
use blobcast.Node.{
  existing, get_chunk_data, chunk_id, read_chunks, node_file_manifest, verified, get_file_data,
}

module _ (P : Pebble) (s : Chain.ChainState P) where
  -- The state has the chunks, and `bytes` is what it has for them, in order.
  abbrev pub Holds : List ChunkReference → List ℕ → Type 0
  Holds [] bytes = bytes ≡ []
  Holds (chunk ∷ chunks) bytes =
      (id : BlobIdentifier) × (first : List ℕ) × (rest : List ℕ) × (chunk_id P s chunk ≡ ok id)
      × (Chain.get_chunk P s id.commitment ≡ ok (some first))
      × Holds chunks rest
      × (bytes ≡ first ++ rest)

  pub existing-eq-ok :
      {A : Type 0} (r : Chain.Res (Option A)) (a : A) → existing r ≡ ok a → r ≡ ok (some a)
  unfolding existing
  existing-eq-ok (ok (some b)) a e = cc
  existing-eq-ok (ok none) a e = absurd (cc e)
  existing-eq-ok (err f) a e = absurd (cc e)
  existing-eq-ok panic a e = absurd (cc e)

  read_chunks-Holds :
      (chunks : List ChunkReference) (before bytes : List ℕ)
      → read_chunks P s chunks before ≡ ok bytes
      → (rest : List ℕ) × Holds chunks rest × (bytes ≡ before ++ rest)
  unfolding read_chunks get_chunk_data
  read_chunks-Holds [] before bytes e = ([], refl, cc (e, append-nil before))
  read_chunks-Holds (chunk ∷ chunks) before bytes e =
      let (id, is_id, e1) = bind-eq-ok (chunk_id P s chunk) _ e in
      let (first, is_first, e2) = bind-eq-ok (get_chunk_data P s id) _ e1 in
      let (rest, held, same) = read_chunks-Holds chunks (before ++ first) bytes e2 in
      (
        first ++ rest,
        (
          id,
          first,
          rest,
          is_id,
          existing-eq-ok (Chain.get_chunk P s id.commitment) first is_first,
          held,
          refl,
        ),
        same ∙ append_assoc before first rest,
      )

  pub Holds-read_chunks :
      (chunks : List ChunkReference) (before bytes : List ℕ)
      → Holds chunks bytes
      → read_chunks P s chunks before ≡ ok (before ++ bytes)
  unfolding read_chunks get_chunk_data existing
  Holds-read_chunks [] before bytes h = rw (h, append-nil before)
  Holds-read_chunks (chunk ∷ chunks) before bytes (id, first, rest, is_id, is_first, held, same) =
      rw (is_id, is_first)
        (Holds-read_chunks chunks (before ++ first) rest held
          ∙ ap ok (append_assoc before first rest ∙ ap (λ l. before ++ l) (sym same)))

  module _ (M : Protobuf) (B : Blake3) where
    verified-eq-ok :
        (m : FileManifest) (bytes d : List ℕ)
        → verified P s M B m bytes ≡ ok d
        → (bytes ≡ d)
          × (length d ≡ m.file_size)
          × (equal_bytes (hash_bytes B (d ∷ [])) m.file_hash ≡ true)
    unfolding verified
    verified-eq-ok m bytes d e = elim (Bool-cases (length bytes == m.file_size)) [
      | inr short ↦ absurd (cc (rw short at e))
      | inl long ↦ elim (Bool-cases (equal_bytes (hash_bytes B (bytes ∷ [])) m.file_hash)) [
        | inr other ↦ absurd (cc (rw (long, other) at e))
        | inl same ↦
            let is : bytes ≡ d = cc (rw (long, same) at e) in
            (is, rw (← is) ((==_iff _ _).0 long), rw (← is) same)
      ]
    ]

    -- The bytes that `GetFileData` answers with are those of the chunks of the file's manifest, in
    -- their order, as the state has them; their number is the size that the manifest states, and
    -- their hash is the hash that it states.
    pub get_file_data-checked :
        (most : ℕ) (id : BlobIdentifier) (d : List ℕ)
        → get_file_data P s M B most id ≡ ok d
        → (m : FileManifest) × (Chain.get_file_manifest P M s id ≡ ok (some m))
          × Holds m.chunks d
          × (length d ≡ m.file_size)
          × (equal_bytes (hash_bytes B (d ∷ [])) m.file_hash ≡ true)
    unfolding get_file_data node_file_manifest
    get_file_data-checked most id d e =
        let (m, is_m, e1) = bind-eq-ok (node_file_manifest P s M id) _ e in
        let (bytes, read, e2) =
          bind-eq-ok (if ltb most m.file_size then panic else read_chunks P s m.chunks []) _ e1 in
        let (same, size, hash) = verified-eq-ok m bytes d e2 in
        let (rest, held, is) =
          read_chunks-Holds m.chunks [] bytes (small (ltb most m.file_size) m bytes read) in
        (
          m,
          existing-eq-ok (Chain.get_file_manifest P M s id) m is_m,
          rw (← same, is) held,
          size,
          hash,
        )
      where
        small :
            (b : Bool) (m : FileManifest) (bytes : List ℕ)
            → (if b then panic else read_chunks P s m.chunks []) ≡ ok bytes
            → read_chunks P s m.chunks [] ≡ ok bytes
        small true m bytes h = absurd (cc h)
        small false m bytes h = h
