-- ===== src/Runs/Messages.antt =====
-- A concrete encoding of manifests.
use blobcast.Prelude.{
  ℕ, ◌≡◌, Option, none, some, List, [], ◌∷◌, arith, replicate, ◌==◌, ◌&&◌, if◌then◌else◌,
}
use blobcast.Crypto.{Hash, bytes_equal, bytes_equal_iff}
use blobcast.Types.Blob.{PbBlobIdentifier}
use blobcast.State.Store.{
  Protobuf, FileManifest, ChunkReference, DirectoryManifest, FileReference, chunk_data,
}
use blobcast.Runs.Toy.{toy_blake3}

-- The one chunk that the encoder below knows: its bytes are 5 and 6.
abbrev pub toy_commitment : Hash
toy_commitment = replicate 32 7

abbrev pub toy_chunk : List ℕ
toy_chunk = 5 ∷ 6 ∷ []

abbrev pub toy_file : ℕ → List ℕ → FileManifest
toy_file size hash = record {
  chunks =
      record {
        id = some (record { height = 0; commitment = toy_commitment });
        chunk_hash = toy_blake3.sum256 toy_chunk;
      }
      ∷ [];
  file_size = size;
  file_hash = hash;
  other_fields = [];
}

-- Files of that chunk are encoded, and no other message is.
unfoldable pub encode_chunk : Option PbBlobIdentifier → List ℕ → ℕ → List ℕ → Option (List ℕ)
unfolding bytes_equal
encode_chunk none chunk_hash size hash = none
encode_chunk (some id) chunk_hash size hash =
    if (id.height == 0)
      && (bytes_equal id.commitment toy_commitment
          && bytes_equal chunk_hash (toy_blake3.sum256 toy_chunk))
    then some (size ∷ hash)
    else none

unfoldable pub encode_file : List ChunkReference → List ℕ → ℕ → List ℕ → Option (List ℕ)
unfolding encode_chunk
encode_file (c ∷ []) [] size hash = encode_chunk c.id c.chunk_hash size hash
encode_file chunks other size hash = none

abbrev pub decode_file : List ℕ → Option FileManifest
decode_file [] = none
decode_file (size ∷ hash) = some (toy_file size hash)

decode_chunk :
    (o : Option PbBlobIdentifier) (chunk_hash : List ℕ) (size : ℕ) (hash d : List ℕ)
    → encode_chunk o chunk_hash size hash ≡ some d
    → decode_file d
      ≡ some (record {
        chunks = record { id = o; chunk_hash = chunk_hash } ∷ [];
        file_size = size;
        file_hash = hash;
        other_fields = [];
      })
unfolding encode_chunk
decode_chunk none k size hash d e = cc
decode_chunk (some id) k size hash d e = ground (
  arith,
  bytes_equal_iff id.commitment toy_commitment,
  bytes_equal_iff k (toy_blake3.sum256 toy_chunk),
)

pub decode_file-encode_file :
    (cs : List ChunkReference) (other : List ℕ) (size : ℕ) (hash d : List ℕ)
    → encode_file cs other size hash ≡ some d
    → decode_file d
      ≡ some (record { chunks = cs; file_size = size; file_hash = hash; other_fields = other })
unfolding encode_file
decode_file-encode_file [] other size hash d e = cc
decode_file-encode_file (c ∷ []) [] size hash d e = decode_chunk c.id c.chunk_hash size hash d e
decode_file-encode_file (c ∷ []) (o ∷ other) size hash d e = cc
decode_file-encode_file (c ∷ c' ∷ cs) other size hash d e = cc

-- Directories of one file, at the path 3, are encoded too.
abbrev pub toy_dir : List ℕ → DirectoryManifest
toy_dir hash = record {
  files =
      record {
        id = some (record { height = 1; commitment = toy_commitment });
        relative_path = 3 ∷ [];
      }
      ∷ [];
  directory_hash = hash;
  other_fields = [];
}

unfoldable pub encode_entry : Option PbBlobIdentifier → List ℕ → List ℕ → Option (List ℕ)
unfolding bytes_equal
encode_entry none path hash = none
encode_entry (some id) path hash =
    if (id.height == 1) && (bytes_equal id.commitment toy_commitment && bytes_equal path (3 ∷ []))
    then some hash
    else none

unfoldable pub encode_dir : List FileReference → List ℕ → List ℕ → Option (List ℕ)
unfolding encode_entry
encode_dir (f ∷ []) [] hash = encode_entry f.id f.relative_path hash
encode_dir files other hash = none

decode_entry :
    (o : Option PbBlobIdentifier) (path hash d : List ℕ)
    → encode_entry o path hash ≡ some d
    → ◌≡◌ {A = Option DirectoryManifest} (some (toy_dir d)) (
        some (record {
          files = record { id = o; relative_path = path } ∷ [];
          directory_hash = hash;
          other_fields = [];
        }))
unfolding encode_entry
decode_entry none path hash d e = cc
decode_entry (some id) path hash d e =
    ground (arith, bytes_equal_iff id.commitment toy_commitment, bytes_equal_iff path (3 ∷ []))

pub decode_dir-encode_dir :
    (files : List FileReference) (other hash d : List ℕ)
    → encode_dir files other hash ≡ some d
    → ◌≡◌ {A = Option DirectoryManifest}
        (some (toy_dir d))
        (some (record { files = files; directory_hash = hash; other_fields = other }))
unfolding encode_dir
decode_dir-encode_dir [] other hash d e = cc
decode_dir-encode_dir (f ∷ []) [] hash d e = decode_entry f.id f.relative_path hash d e
decode_dir-encode_dir (f ∷ []) (o ∷ other) hash d e = cc
decode_dir-encode_dir (f ∷ f' ∷ files) other hash d e = cc

abbrev pub toy_protobuf : Protobuf
toy_protobuf = record {
  marshal_file = λ m. encode_file m.chunks m.other_fields m.file_size m.file_hash;
  unmarshal_file = decode_file;
  marshal_dir = λ m. encode_dir m.files m.other_fields m.directory_hash;
  unmarshal_dir = λ d. some (toy_dir d);
  unmarshal_envelope = λ d. some (chunk_data d);
  file_round_trip =
      λ m d h. decode_file-encode_file m.chunks m.other_fields m.file_size m.file_hash d h;
  dir_round_trip = λ m d h. decode_dir-encode_dir m.files m.other_fields m.directory_hash d h;
}
