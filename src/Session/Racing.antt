-- ===== src/Session/Racing.antt =====
-- ssh/session/session_minimal.go: NewSeat and NewClientChannel as the handlers of one client's session
-- channels call them (ssh/server/channels/session.go), each in a goroutine of its own and without a lock.
pub mod Laws
use mini_shellhub.Prelude.{
  ℕ, ◌+◌, ◌%◌, ◌^◌, ◌<◌, List, [], ◌∷◌, ◌++◌, ◌≡◌, Bool, true, false, ◌||◌, not, ltb, length,
  Option, none, some, lookup, nat_key,
}
use mini_shellhub.Session.Types.{Session}
use mini_shellhub.Session.Channels.{set_client_channel}

pub record Race : Type 0 where
  pub session : Session
  -- The handlers that have read the next seat and not yet counted it up, and those that have their
  -- seat, each by its seat.
  pub loaded : List ℕ
  pub seated : List ℕ
  -- The channels that were refused for a seat that is taken.
  pub refused : ℕ

abbrev pub start : Session → Race
start s = record { session = s; loaded = []; seated = []; refused = 0 }

-- `id := s.next`, and `s.next++; return id`, which counts up what is there by then.
unfoldable pub load_seat : Race → Race
load_seat r = record r { loaded = r.loaded ++ r.session.next_seat ∷ [] }

unfoldable pub count_up : ℕ → List ℕ → Race → Race
count_up seat loaded r = record r {
  session = record (r.session) { next_seat = (r.session.next_seat + 1) % 2 ^ 64 };
  loaded = loaded;
  seated = seat ∷ r.seated;
}

accept_at : ℕ → ℕ → List ℕ → Option ℕ → Race → Race
accept_at seat channel seated (some taken) r = record r { seated = seated; refused = r.refused + 1 }
accept_at seat channel seated none r = record r {
  session = set_client_channel seat channel r.session;
  seated = seated;
}

-- NewClientChannel of a channel that the library accepts.
unfoldable pub accept : ℕ → ℕ → List ℕ → Race → Race
unfolding accept_at set_client_channel
accept seat channel seated r =
    accept_at seat channel seated (lookup seat r.session.client.channels) r

-- `overlaps` is whether a handler may read the next seat while another has yet to count it up. The
-- steps end with the seats of an `int`.
module _ (overlaps : Bool) where
  pub data Step (r : Race) : Race → Type 0 where
    loads :
        (overlaps || not (ltb 0 (length r.loaded))) ≡ true
        → r.session.next_seat + 1 < 2 ^ 64
        → Step r (load_seat r)
    counts :
        (before : List ℕ) (seat : ℕ) (after : List ℕ)
        → r.loaded ≡ before ++ seat ∷ after
        → Step r (count_up seat (before ++ after) r)
    accepts :
        (before : List ℕ) (seat : ℕ) (after : List ℕ) (channel : ℕ)
        → r.seated ≡ before ++ seat ∷ after
        → Step r (accept seat channel (before ++ after) r)
