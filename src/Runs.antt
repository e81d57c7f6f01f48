-- ===== src/Runs.antt =====
-- The theorems at concrete inputs, with simple functions for the parameters of the model.
mod Toy
mod Messages
mod Hashes
mod Encodings
mod Storage
mod Manifests
mod Directories
mod Heights
mod Submissions
mod Uploads
mod Answers
mod Remote
mod Requests
mod Files
