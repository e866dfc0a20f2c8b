-- ===== src/Copies.antt =====
-- `io.Copy` from `io.MultiReader(stdout, stderr)`, as agent/pkg/agent/server/modes/host/sessioner.go and
-- ssh/server/channels/utils.go copy a command's output: the first stream is read to its end before the
-- second is read at all. A write waits while the buffer between writer and reader has no room.
pub mod Laws
pub mod Ending
use mini_shellhub.Prelude
use mini_shellhub.Prelude.{ℕ, ◌+◌, List, [], ◌∷◌, ◌++◌, Text, ◌≡◌, Bool, true, false, ltb, length}

pub data Stream : Type 0 where
  stdout stderr : Stream

-- What the writer still writes, byte by byte, and to which stream.
pub record Copy : Type 0 where
  pub todo : List (Stream × ℕ)
  pub out_buffer : Text
  pub err_buffer : Text
  -- What the reader has passed on.
  pub copied : Text

-- What is between writer and reader: whether there is room for a byte of a stream, by the bytes that the
-- two buffers hold, and whether the first stream ends once all of it is written, or with the second.
pub record Room : Type 0 where
  pub has_room : Stream → ℕ → ℕ → Bool
  pub closes_early : Bool

abbrev pub pipe_room : ℕ → Stream → ℕ → ℕ → Bool
pipe_room capacity stdout out err = ltb out capacity
pipe_room capacity stderr out err = ltb err capacity

-- Two pipes of the operating system, each with its own capacity. A command can close its standard output
-- before it ends.
abbrev pub pipes : Bool → ℕ → Room
pipes early capacity = record { has_room = pipe_room capacity; closes_early = early }

-- The two streams of an SSH channel, which share the channel's window, and its end.
abbrev pub window : ℕ → Room
window size = record { has_room = λ stream out err. ltb (out + err) size; closes_early = false }

abbrev pub behind : Stream × ℕ → List (Stream × ℕ) → List (Stream × ℕ)
behind item [] = []
behind item (next ∷ rest) = item ∷ next ∷ rest

-- What is written before the first stream ends: all, or all up to the last byte for the first stream.
abbrev pub front : Bool → List (Stream × ℕ) → List (Stream × ℕ)
front false todo = todo
front true [] = []
front true ((stdout, b) ∷ todo) = (stdout, b) ∷ front true todo
front true ((stderr, b) ∷ todo) = behind (stderr, b) (front true todo)

module _ (room : Room) where
  pub data Step (c : Copy) : Copy → Type 0 where
    writes_out :
        (b : ℕ) (rest : List (Stream × ℕ))
        → c.todo ≡ (stdout, b) ∷ rest
        → room.has_room stdout (length c.out_buffer) (length c.err_buffer) ≡ true
        → Step c (record c { todo = rest; out_buffer = c.out_buffer ++ b ∷ [] })
    writes_err :
        (b : ℕ) (rest : List (Stream × ℕ))
        → c.todo ≡ (stderr, b) ∷ rest
        → room.has_room stderr (length c.out_buffer) (length c.err_buffer) ≡ true
        → Step c (record c { todo = rest; err_buffer = c.err_buffer ++ b ∷ [] })
    reads_out :
        (b : ℕ) (rest : Text)
        → c.out_buffer ≡ b ∷ rest
        → Step c (record c { out_buffer = rest; copied = c.copied ++ b ∷ [] })
    reads_err :
        (b : ℕ) (rest : Text)
        → front room.closes_early c.todo ≡ []
        → c.out_buffer ≡ []
        → c.err_buffer ≡ b ∷ rest
        → Step c (record c { err_buffer = rest; copied = c.copied ++ b ∷ [] })

abbrev pub Reach : Room → Copy → Copy → Type 0
Reach room = Prelude.Reach (Step room)

-- `io.Copy` returns: both streams have ended and are read.
pub record IsDone (c : Copy) : Type 0 where
  pub written : c.todo ≡ []
  pub out_read : c.out_buffer ≡ []
  pub err_read : c.err_buffer ≡ []

unfoldable pub start : List (Stream × ℕ) → Copy
start script = record { todo = script; out_buffer = []; err_buffer = []; copied = [] }
