-- ===== src/ProverServer/Downloads.antt =====
-- cmd/prover-server/cmd.go: getProof and getPublicInputs, which send a file of the directory. The
-- id of the path is a number here, as the client sends it; no other file of its form is there. The
-- page that gin sends with 404 is a parameter.
use mathlib.Core.Option
use ovote_node.Base.{Bytes, ℤ, Option, none, some, ok}
use ovote_node.Prover.Client.{Reply}
use ovote_node.ProverServer.System.{Shared, read_file}

-- `c.File`
abbrev pub file_reply : (not_found : Bytes) → Option Bytes → Reply
file_reply not_found none = record { status = 404; content = ok not_found }
file_reply not_found (some file) = record { status = 200; content = ok file }

-- The two files that genProof makes, by the id in their names.
abbrev pub files_of : ℤ → Shared → Option (Bytes × Bytes)
files_of (ℤ.pos n) a = read_file n a.proofs
files_of (ℤ.negsuc n) a = none

unfoldable pub send_proof : (not_found : Bytes) → ℤ → Shared → Reply
send_proof not_found id a = file_reply not_found (Option.map (λ files. files.0) (files_of id a))

unfoldable pub send_public_inputs : (not_found : Bytes) → ℤ → Shared → Reply
send_public_inputs not_found id a =
    file_reply not_found (Option.map (λ files. files.1) (files_of id a))
