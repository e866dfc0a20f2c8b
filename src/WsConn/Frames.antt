-- ===== src/WsConn/Frames.antt =====
-- A WebSocket connection as lists of messages: the operations that the library is assumed to have
-- can be had.
use mini_shellhub.Prelude.{
  ℕ, zero, suc, ◌≤◌, Text, List, [], ◌∷◌, ◌++◌, ◌≡◌, refl, Bool, true, false, Option, none, some,
  length, arith,
}
use mini_shellhub.WsConn.{Message, Chunk, WebSocket}

pub record Frames : Type 0 where
  pub sent : List Message
  pub current : Text
  pub queue : List Message

abbrev pub next_frame : List Message → Frames → Frames × Option Bool
next_frame [] f = (f, none)
next_frame (m ∷ ms) f = (record f { current = m.payload; queue = ms }, some m.is_binary)

abbrev pub split_at : ℕ → Text → Text × Text
split_at zero s = ([], s)
split_at (suc n) [] = ([], [])
split_at (suc n) (c ∷ s) = let (a, b) = split_at n s in (c ∷ a, b)

abbrev pub is_nil : Text → Bool
is_nil [] = true
is_nil _ = false

abbrev pub read_frame : ℕ → Frames → Frames × Option Chunk
read_frame n f =
    let (a, b) = split_at n f.current in
    (record f { current = b }, some (record { bytes = a; eof = is_nil b }))

split_at-append : (n : ℕ) (s : Text) → s ≡ (split_at n s).0 ++ (split_at n s).1
split_at-append zero s = refl
split_at-append (suc n) [] = refl
split_at-append (suc n) (c ∷ s) = ground (arith, split_at-append n s)

length-split_at : (n : ℕ) (s : Text) → length (split_at n s).0 ≤ n
length-split_at zero s = omega arith
length-split_at (suc n) [] = omega arith
length-split_at (suc n) (c ∷ s) = omega (arith, length-split_at n s)

is_nil→≡ : (s : Text) → is_nil s ≡ true → s ≡ []
is_nil→≡ [] h = refl
is_nil→≡ (c ∷ s) h = cc

pub next_frame_lem :
    (q : List Message) (f g : Frames) (binary : Bool)
    → f.queue ≡ q
    → next_frame q f ≡ (g, some binary)
    → f.queue ≡ record { is_binary = binary; payload = g.current } ∷ g.queue
next_frame_lem [] f g binary e h = absurd (cc)
next_frame_lem (m ∷ ms) f g binary e h = ground arith

pub read_frame_lem :
    (n : ℕ) (f g : Frames) (k : Chunk)
    → read_frame n f ≡ (g, some k)
    → (f.current ≡ k.bytes ++ g.current)
      × (length k.bytes ≤ n)
      × (k.eof ≡ true → g.current ≡ [])
      × (g.queue ≡ f.queue)
read_frame_lem n f g k h = ground (
  arith,
  split_at-append n f.current,
  length-split_at n f.current,
  is_nil→≡ (split_at n f.current).1,
)

abbrev pub write_frame : Text → Frames → Frames × Bool
write_frame b f =
    (record f { sent = f.sent ++ record { is_binary = true; payload = b } ∷ [] }, true)

pub write_frame_lem :
    (b : Text) (f g : Frames)
    → write_frame b f ≡ (g, true)
    → g.sent ≡ f.sent ++ record { is_binary = true; payload = b } ∷ []
write_frame_lem b f g h = ground arith

abbrev pub frames : WebSocket Frames
frames = record {
  written = λ f. f.sent;
  pending = λ f. f.current;
  arriving = λ f. f.queue;
  next_reader = λ f. next_frame f.queue f;
  read_message = read_frame;
  write_message = write_frame;
  next_reader_lem = λ f g binary h. next_frame_lem f.queue f g binary refl h;
  read_message_lem = read_frame_lem;
  write_message_lem = write_frame_lem;
}
