-- ===== src/Client/Examples.antt =====
-- hw2/src/client/cli.cpp: the theorems at concrete inputs.
use to_ftds.Base.{ℕ, ◌≡◌, refl, arith, List, [], ◌∷◌, Returns}
use to_ftds.KvStore.{new_store, write_command, read}
use to_ftds.KvStore.Examples.{first_write, written, new_store-Follows}
use to_ftds.Client.{
  Flags, read_request, write_request, calls, read_operation, write_operation, start_read,
  start_write, run_client,
}
use to_ftds.Client.Requests.{Explains, run_client-Explains, written-read}

-- The port in one byte.
abbrev one_byte : ℕ → List ℕ
one_byte n = n ∷ []

abbrev write_flags : Flags
write_flags = record {
  host = 104 ∷ [];
  port = 80;
  key = 107 ∷ [];
  value = 119 ∷ [];
  operation = write_operation;
}

abbrev read_flags : Flags
read_flags = record write_flags { value = []; operation = read_operation }

run_client-Explains_example : Explains one_byte read_flags (run_client one_byte read_flags)
run_client-Explains_example = run_client-Explains one_byte read_flags

writes :
    run_client one_byte write_flags
    ≡ calls (104 ∷ 58 ∷ 80 ∷ []) (write_request (107 ∷ []) (119 ∷ []))
unfolding run_client start_write
writes = refl

reads : run_client one_byte read_flags ≡ calls (104 ∷ 58 ∷ 80 ∷ []) (read_request (107 ∷ []))
unfolding run_client start_read
reads = refl

written-read_example : Returns (λ r. r.0 ≡ 119 ∷ []) (read new_store written (107 ∷ []))
unfolding write_command
written-read_example =
    written-read one_byte write_flags read_flags (104 ∷ 58 ∷ 80 ∷ []) (104 ∷ 58 ∷ 80 ∷ [])
      (107 ∷ []) (119 ∷ []) new_store written (first_write ∷ []) [] writes reads (refl, tt)
      (refl, tt) new_store-Follows (omega arith) (omega arith) (omega arith) refl refl refl tt
