-- ===== src/WsConn.antt =====
-- pkg/yamuxws/yamuxws.go: a WebSocket connection read and written as a stream of bytes. The WebSocket
-- library is a parameter: its operations, and what its documentation says of them.
pub mod Stream
pub mod Frames
pub mod Deadlines
use mini_shellhub.Prelude.{
  ℕ, ◌≤◌, Text, List, [], ◌∷◌, ◌++◌, ◌≡◌, Bool, true, false, Option, none, some, Result, ok, err,
  panic, length, if◌then◌else◌,
}

pub record Message : Type 0 where
  pub is_binary : Bool
  pub payload : Text

-- What one `Read` of a message's reader gives: some bytes, and whether the message has ended.
pub record Chunk : Type 0 where
  pub bytes : Text
  pub eof : Bool

-- The library's connection. `written` is what was sent over it, `pending` is what is left of the message that is being read,
-- and `arriving` the messages behind it.
pub record WebSocket {ℓ} (C : Type ℓ) : Type ℓ where
  pub written : C → List Message
  pub pending : C → Text
  pub arriving : C → List Message
  -- `NextReader`: none for an error; otherwise whether the next message is binary.
  pub next_reader : C → C × Option Bool
  -- A read of at most n bytes of the message; none for an error.
  pub read_message : ℕ → C → C × Option Chunk
  pub write_message : Text → C → C × Bool
  pub next_reader_lem :
      (c c' : C) (binary : Bool)
      → next_reader c ≡ (c', some binary)
      → arriving c ≡ record { is_binary = binary; payload = pending c' } ∷ arriving c'
  pub read_message_lem :
      (n : ℕ) (c c' : C) (k : Chunk)
      → read_message n c ≡ (c', some k)
      → (pending c ≡ k.bytes ++ pending c')
        × (length k.bytes ≤ n)
        × (k.eof ≡ true → pending c' ≡ [])
        × (arriving c' ≡ arriving c)
  pub write_message_lem :
      (b : Text) (c c' : C)
      → write_message b c ≡ (c', true)
      → written c' ≡ written c ++ record { is_binary = true; payload = b } ∷ []

pub data ReadError : Type 0 where
  next_failed read_limit read_failed : ReadError

-- WSConn: the connection, and whether the field `reader` is set.
pub record WsConn {ℓ} (C : Type ℓ) : Type ℓ where
  pub conn : C
  pub has_reader : Bool

module _ {ℓ} {C : Type ℓ} (ws : WebSocket C) where
  unfoldable pub new_ws_conn : C → WsConn C
  new_ws_conn c = record { conn = c; has_reader = false }

  next_result : C × Option Bool → WsConn C × Result ReadError (Unit {0})
  next_result (c, none) = (record { conn = c; has_reader = false }, err next_failed)
  next_result (c, some false) = (record { conn = c; has_reader = false }, err read_limit)
  next_result (c, some true) = (record { conn = c; has_reader = true }, ok tt)

  -- The first half of `Read`: a reader is made where there is none.
  unfoldable pub ensure_reader : WsConn C → WsConn C × Result ReadError (Unit {0})
  unfolding next_result
  ensure_reader w = if w.has_reader then (w, ok tt) else next_result (ws.next_reader w.conn)

  read_result : C × Option Chunk → WsConn C × Result ReadError Text
  read_result (c, none) = (record { conn = c; has_reader = true }, err read_failed)
  read_result (c, some k) =
      (record { conn = c; has_reader = if k.eof then false else true }, ok k.bytes)

  read_with : ℕ → WsConn C × Result ReadError (Unit {0}) → WsConn C × Result ReadError Text
  unfolding read_result
  read_with n (w, ok _) = read_result (ws.read_message n w.conn)
  read_with n (w, err e) = (w, err e)
  read_with n (w, panic) = (w, panic)

  -- `Read` into a buffer of n bytes.
  unfoldable pub read : ℕ → WsConn C → WsConn C × Result ReadError Text
  unfolding ensure_reader read_with
  read n w = read_with n (ensure_reader w)

  write_result : Text → WsConn C → C × Bool → WsConn C × Option ℕ
  write_result b w (c, true) = (record w { conn = c }, some (length b))
  write_result b w (c, false) = (record w { conn = c }, none)

  -- `Write`: one binary message; none for an error.
  unfoldable pub write : Text → WsConn C → WsConn C × Option ℕ
  unfolding write_result
  write b w = write_result b w (ws.write_message b w.conn)
