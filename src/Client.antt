-- ===== src/Client.antt =====
-- hw2/src/client/cli.cpp: the client, from its flags to its call. A call is an address and a request.
pub mod Requests
mod Examples
use to_ftds.Base.{ℕ, ◌==◌, if◌then◌else◌, Bool, true, false, List, [], ◌∷◌, ◌++◌, bytes_eq}
use to_ftds.KvStore.{Key, Value}

pub record Flags : Type 0 where
  pub host : List ℕ
  pub port : ℕ
  pub key : Key
  pub value : Value
  pub operation : List ℕ

pub data Request : Type 0 where
  read_request : Key → Request
  write_request : Key → Value → Request

pub data Refusal : Type 0 where
  port_not_set key_not_set value_not_set unknown_operation : Refusal

pub data Run : Type 0 where
  refuses : Refusal → Run
  calls : List ℕ → Request → Run

abbrev pub read_operation : List ℕ
read_operation = 114 ∷ 101 ∷ 97 ∷ 100 ∷ []

abbrev pub write_operation : List ℕ
write_operation = 119 ∷ 114 ∷ 105 ∷ 116 ∷ 101 ∷ []

abbrev pub address : (ℕ → List ℕ) → Flags → List ℕ
address to_string f = f.host ++ 58 ∷ to_string f.port

pub start_read : List ℕ → Flags → Run
start_read addr f =
    if bytes_eq f.key [] then refuses key_not_set else calls addr (read_request f.key)

pub start_write : List ℕ → Flags → Run
start_write addr f =
    if bytes_eq f.key []
    then refuses key_not_set
    else (if bytes_eq f.value []
        then refuses value_not_set
        else calls addr (write_request f.key f.value))

-- `main`, where `to_string` is `std::to_string`.
pub run_client : (ℕ → List ℕ) → Flags → Run
unfolding start_read start_write
run_client to_string f =
    if f.port == 0
    then refuses port_not_set
    else (if bytes_eq f.operation read_operation
        then start_read (address to_string f) f
        else (if bytes_eq f.operation write_operation
            then start_write (address to_string f) f
            else refuses unknown_operation))

-- What `main` returns; the status of the call plays no part.
pub exit_code : Run → ℕ
exit_code (refuses r) = 1
exit_code (calls addr request) = 0
