-- ===== src/KvStore/Commands.antt =====
-- hw2/src/worker/worker.cpp: a `Write` as a command, and the command read back.
use to_ftds.Base.{ℕ, ◌≡◌, refl, ap, false, List, [], ◌∷◌, ◌++◌, All}
use to_ftds.KvStore.{
  Value, is_space, skip_space, span_word, read_word, parse_command, write_command,
}

-- No byte is a blank.
abbrev pub IsWord : List ℕ → Type 0
IsWord = All (λ c. is_space c ≡ false)

-- A word ends at the first blank, or at the end.
span_word-append :
    (word rest : List ℕ) → IsWord word → span_word (word ++ 32 ∷ rest) ≡ (word, 32 ∷ rest)
unfolding span_word
span_word-append [] rest h = refl
span_word-append (c ∷ word) rest h = rw (h.0, span_word-append word rest h.1)

span_word-all : (word : List ℕ) → IsWord word → span_word word ≡ (word, [])
unfolding span_word
span_word-all [] h = refl
span_word-all (c ∷ word) h = rw (h.0, span_word-all word h.1)

skip_space-word : (c : ℕ) (word : List ℕ) → is_space c ≡ false → skip_space (c ∷ word) ≡ c ∷ word
unfolding skip_space
skip_space-word c word h = rw h

pub read_word_cut :
    (c : ℕ) (word rest : List ℕ)
    → IsWord (c ∷ word)
    → read_word (c ∷ (word ++ 32 ∷ rest)) ≡ (c ∷ word, 32 ∷ rest)
unfolding read_word
read_word_cut c word rest h = rw (h.0, h.0, span_word-append word rest h.1)

read_word_last : (c : ℕ) (word : List ℕ) → IsWord (c ∷ word) → read_word (c ∷ word) ≡ (c ∷ word, [])
unfolding read_word
read_word_last c word h = rw (h.0, h.0, span_word-all word h.1)

read_word_blank : (s : List ℕ) → read_word (32 ∷ s) ≡ read_word s
unfolding read_word
read_word_blank s = refl

read_value : (value : Value) → IsWord value → (read_word (32 ∷ value)).0 ≡ value
unfolding read_word
read_value [] h = refl
read_value (c ∷ value) h = ap (λ (r : List ℕ × List ℕ). r.0) (read_word_last c value h)

-- The command of a Write whose key is not empty and whose key and value have no blank is read
-- back as that key and value.
pub parse-write :
    (c : ℕ) (key : List ℕ) (value : Value)
    → IsWord (c ∷ key)
    → IsWord value
    → parse_command (write_command (c ∷ key) value) ≡ (c ∷ key, value)
unfolding parse_command write_command
parse-write c key value hk hv = rw (read_word_cut c key value hk, read_value value hv)

-- Of the command of a Write whose value has a blank behind its first word, only that word is read
-- back as the value, the key being a word.
pub parse-write_cut :
    (c : ℕ) (key : List ℕ) (v : ℕ) (word rest : List ℕ)
    → IsWord (c ∷ key)
    → IsWord (v ∷ word)
    → parse_command (write_command (c ∷ key) (v ∷ (word ++ 32 ∷ rest))) ≡ (c ∷ key, v ∷ word)
unfolding parse_command write_command
parse-write_cut c key v word rest hk hv = rw (
  read_word_cut c key (v ∷ (word ++ 32 ∷ rest)) hk,
  read_word_blank (v ∷ (word ++ 32 ∷ rest)),
  read_word_cut v word rest hv,
)
