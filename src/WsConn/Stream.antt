-- ===== src/WsConn/Stream.antt =====
-- pkg/yamuxws/yamuxws.go: reads lose, reorder and make up no bytes.
use mini_shellhub.Prelude.{
  ℕ, ◌≤◌, Text, List, [], ◌∷◌, ◌++◌, ◌≡◌, refl, sym, ap, ◌∙◌, Bool, true, false, Option, none, some,
  Result, ok, err, panic, length, if◌then◌else◌, arith, append_assoc, append-nil,
}
use mathlib.Core.List.{flatten}
use mini_shellhub.WsConn.{
  Message, Chunk, WebSocket, ReadError, WsConn, ensure_reader, read, read_result, next_result,
  read_with, write, write_result, new_ws_conn,
}

-- The bytes of messages, one behind the other.
abbrev pub payloads : List Message → Text
payloads [] = []
payloads (m ∷ ms) = m.payload ++ payloads ms

payloads-append : (ms ns : List Message) → payloads (ms ++ ns) ≡ payloads ms ++ payloads ns
payloads-append [] ns = refl
payloads-append (m ∷ ms) ns =
    rw (payloads-append ms ns) (sym (append_assoc m.payload (payloads ms) (payloads ns)))

abbrev prepend {ℓ} : {W : Type ℓ} → Text → W × Result ReadError Text → W × Result ReadError Text
prepend b (w, ok bs) = (w, ok (b ++ bs))
prepend b (w, err e) = (w, err e)
prepend b (w, panic) = (w, panic)

abbrev behind {ℓ} :
    {W : Type ℓ}
    → W × Result ReadError Text
    → (W → W × Result ReadError Text)
    → W × Result ReadError Text
behind (w, ok b) rest = prepend b (rest w)
behind (w, err e) rest = (w, err e)
behind (w, panic) rest = (w, panic)

abbrev written_then {ℓ} : {W : Type ℓ} → W × Option ℕ → (W → Option W) → Option W
written_then (w, some n) rest = rest w
written_then (w, none) rest = none

written_then-some {ℓ} :
    {W : Type ℓ} (r : W × Option ℕ) (rest : W → Option W) (w : W)
    → written_then r rest ≡ some w
    → (v : W) × (k : ℕ) × (r ≡ (v, some k)) × (rest v ≡ some w)
written_then-some (v, some k) rest w h = (v, k, refl, h)
written_then-some (v, none) rest w h = absurd (cc)

prepend-ok {ℓ} :
    {W : Type ℓ} (b : Text) (r : W × Result ReadError Text) (w : W) (c : Text)
    → prepend b r ≡ (w, ok c)
    → (bs : Text) × (r ≡ (w, ok bs)) × (c ≡ b ++ bs)
prepend-ok b (v, ok bs) w c h = (bs, ground arith, ground arith)
prepend-ok b (v, err e) w c h = absurd (cc)
prepend-ok b (v, panic) w c h = absurd (cc)

module _ {ℓ} {C : Type ℓ} (ws : WebSocket C) where
  -- What is still to be read.
  abbrev pub unread : WsConn C → Text
  unread w = (if w.has_reader then ws.pending w.conn else []) ++ payloads (ws.arriving w.conn)

  -- Once there is a reader, a read takes its bytes from the front.
  message_read :
      (n : ℕ) (c : C) (r : C × Option Chunk) (w : WsConn C) (b : Text)
      → ws.read_message n c ≡ r
      → read_result ws r ≡ (w, ok b)
      → (ws.pending c ++ payloads (ws.arriving c) ≡ b ++ unread w) × (length b ≤ n)
  unfolding read_result
  message_read n c (c', none) w b e h = absurd (cc)
  message_read n c (c', some k) w b e h = ground (
    arith,
    ws.read_message_lem n c c' k,
    append_assoc k.bytes (ws.pending c') (payloads (ws.arriving c')),
    append-nil k.bytes,
  )

  -- Without a reader, the next message is made one first.
  next_read :
      (n : ℕ) (c : C) (r : C × Option Bool) (w : WsConn C) (b : Text)
      → ws.next_reader c ≡ r
      → read_with ws n (next_result ws r) ≡ (w, ok b)
      → (payloads (ws.arriving c) ≡ b ++ unread w) × (length b ≤ n)
  unfolding read_with next_result
  next_read n c (c', none) w b e h = absurd (cc)
  next_read n c (c', some false) w b e h = absurd (cc)
  next_read n c (c', some true) w b e h =
      rw (ws.next_reader_lem c c' true e) (message_read n c' (ws.read_message n c') w b refl h)

  read_at :
      (n : ℕ) (c : C) (has : Bool) (w' : WsConn C) (b : Text)
      → read ws n (record { conn = c; has_reader = has }) ≡ (w', ok b)
      → (unread (record { conn = c; has_reader = has }) ≡ b ++ unread w') × (length b ≤ n)
  unfolding read ensure_reader
  read_at n c true w' b h = message_read n c (ws.read_message n c) w' b refl h
  read_at n c false w' b h = next_read n c (ws.next_reader c) w' b refl h

  -- A read that succeeds returns at most as many bytes as its buffer holds, and they are the front of
  -- what was unread.
  pub read-unread :
      (n : ℕ) (w w' : WsConn C) (b : Text)
      → read ws n w ≡ (w', ok b)
      → (unread w ≡ b ++ unread w') × (length b ≤ n)
  read-unread n w w' b h = read_at n w.conn w.has_reader w' b h

  -- Reads into buffers of the given sizes: the bytes of all, or the first error.
  unfoldable pub read_all : List ℕ → WsConn C → WsConn C × Result ReadError Text
  read_all [] w = (w, ok [])
  read_all (n ∷ ns) w = behind (read ws n w) (read_all ns)

  read_all_at :
      (n : ℕ) (ns : List ℕ) (w w' : WsConn C) (b : Text) (r : WsConn C × Result ReadError Text)
      → read ws n w ≡ r
      → ((v : WsConn C) (bs : Text) → read_all ns v ≡ (w', ok bs) → unread v ≡ bs ++ unread w')
      → behind r (read_all ns) ≡ (w', ok b)
      → unread w ≡ b ++ unread w'
  read_all_at n ns w w' b (v, ok b1) e ih h =
      let (bs, f, g) = prepend-ok b1 (read_all ns v) w' b h in
      rw ((read-unread n w v b1 e).0, ih v bs f, g) (sym (append_assoc b1 bs (unread w')))
  read_all_at n ns w w' b (v, err x) e ih h = absurd (cc)
  read_all_at n ns w w' b (v, panic) e ih h = absurd (cc)

  read_all-unread :
      (ns : List ℕ) (w w' : WsConn C) (bs : Text)
      → read_all ns w ≡ (w', ok bs)
      → unread w ≡ bs ++ unread w'
  unfolding read_all
  read_all-unread [] w w' bs h = ground arith
  read_all-unread (n ∷ ns) w w' bs h =
      read_all_at n ns w w' bs (read ws n w) refl (λ v cs k. read_all-unread ns v w' cs k) h

  -- Writes of the given bytes, each in turn; none if one fails.
  unfoldable pub write_all : List Text → WsConn C → Option (WsConn C)
  write_all [] w = some w
  write_all (b ∷ bs) w = written_then (write ws b w) (write_all bs)

  write_at :
      (b : Text) (w v : WsConn C) (k : ℕ) (r : C × Bool)
      → ws.write_message b w.conn ≡ r
      → write_result ws b w r ≡ (v, some k)
      → payloads (ws.written v.conn) ≡ payloads (ws.written w.conn) ++ b
  unfolding write_result
  write_at b w v k (c, false) e h = absurd (cc)
  write_at b w v k (c, true) e h = ground (
    arith,
    ws.write_message_lem b w.conn c e,
    payloads-append (ws.written w.conn) (record { is_binary = true; payload = b } ∷ []),
    append-nil b,
  )

  write_one :
      (b : Text) (w v : WsConn C) (k : ℕ)
      → write ws b w ≡ (v, some k)
      → payloads (ws.written v.conn) ≡ payloads (ws.written w.conn) ++ b
  unfolding write
  write_one b w v k h = write_at b w v k (ws.write_message b w.conn) refl h

  write_all-written :
      (bs : List Text) (w w' : WsConn C)
      → write_all bs w ≡ some w'
      → payloads (ws.written w'.conn) ≡ payloads (ws.written w.conn) ++ flatten bs
  unfolding write_all flatten
  write_all-written [] w w' h = ground (arith, append-nil (payloads (ws.written w.conn)))
  write_all-written (b ∷ bs) w w' h =
      let (v, k, e, f) = written_then-some (write ws b w) (write_all bs) w' h in
      rw (write_all-written bs v w' f, write_one b w v k e)
        (append_assoc (payloads (ws.written w.conn)) b (flatten bs))

-- What one end writes, the other end reads: if all writes on a connection that nothing was written to
-- succeed, and what was written arrives at the other end, then successful reads there, into buffers
-- of any sizes, return a prefix of the bytes written, in order.
pub write_all-read_all {ℓ κ} :
    {C : Type ℓ} {D : Type κ} (ws : WebSocket C) (peer : WebSocket D) (bs : List Text) (ns : List ℕ)
    (c : C) (d : D) (w : WsConn C) (r : WsConn D) (got : Text)
    → ws.written c ≡ []
    → write_all ws bs (new_ws_conn ws c) ≡ some w
    → peer.arriving d ≡ ws.written w.conn
    → read_all peer ns (new_ws_conn peer d) ≡ (r, ok got)
    → flatten bs ≡ got ++ unread peer r
unfolding new_ws_conn
write_all-read_all ws peer bs ns c d w r got none_yet sends arrives reads =
    sym (
      write_all-written ws bs (new_ws_conn ws c) w sends
      ∙ ap (λ ms. payloads ms ++ flatten bs) none_yet)
    ∙ ap payloads (sym arrives)
    ∙ read_all-unread peer ns (new_ws_conn peer d) r got reads
