-- ===== src/Session/Types.antt =====
-- ssh/session: the data of a session, of a snapshot and of a client's context. A `*Session` is a
-- position in the context's store of sessions, since several holders share what it points to.
use mini_shellhub.Prelude.{
  ℕ, Text, List, [], ◌∷◌, ◌++◌, Option, none, some, Dict, Bool, Result, ok, err, panic, length,
  get_elem?, set,
}
use mini_shellhub.Target.{Target, TargetError}
use mini_shellhub.Tunnel.{StreamConn, DialError}

-- The states of a snapshot, in the order of their values.
pub data State : Type 0 where
  state_nil state_created state_dialed state_evaluated state_registered state_finished : State

unfoldable pub state_value : State → ℕ
state_value state_nil = 1
state_value state_created = 2
state_value state_dialed = 3
state_value state_evaluated = 4
state_value state_registered = 5
state_value state_finished = 6

pub record DeviceInfo : Type 0 where
  pub uid : Text
  pub name : Text
  pub version : Text

-- The struct Data; its namespace is always the empty one and is left out.
pub record SessionData : Type 0 where
  pub target : Target
  pub sshid : Text
  pub device : DeviceInfo
  pub ip_address : Text
  pub session_type : Text
  pub term : Text
  pub handled : Bool

-- The SSH client and the global requests are what the SSH library's handshake returns.
pub record Agent : Type 0 where
  pub conn : Option StreamConn
  pub client : Option ℕ
  pub requests : Option ℕ
  pub channels : Dict ℕ ℕ

pub record Client : Type 0 where
  pub channels : Dict ℕ ℕ

-- `next_seat` is the bit pattern of an `int`.
pub record Session : Type 0 where
  pub uid : Text
  pub agent : Agent
  pub client : Client
  pub next_seat : ℕ
  pub info : SessionData

pub record Snapshot : Type 0 where
  pub session : Option ℕ
  pub state : State

-- What the handlers of one client's connection share: gliderssh's context, with the values that the
-- program puts into it (`conn`, by whether it is set, and closed), and the sessions made in it.
pub record Context : Type 0 where
  pub user : Text
  pub remote_addr : Text
  pub session_id : Text
  pub has_conn : Bool
  pub conn_closed : Bool
  pub snap : Option Snapshot
  pub store : List Session

pub data SessionError : Type 0 where
  err_host invalid_session_state seat_already_set agent_client_not_established : SessionError
  err_target : TargetError → SessionError
  err_dial : DialError → SessionError
  handshake_failed accept_failed open_channel_failed : SessionError

-- A call in a context: the context after it, and what it returned.
abbrev pub M : Type 0 → Type 0
M A = Context → Context × Result SessionError A

abbrev pub and_then :
    {A B : Type 0} → Context × Result SessionError A → (A → M B) → Context × Result SessionError B
and_then (c, ok a) f = f a c
and_then (c, err e) f = (c, err e)
and_then (c, panic) f = (c, panic)

-- A call's error becomes a value, as in `if err != nil { return … }`.
abbrev pub on_error :
    {A B : Type 0}
    → Context × Result SessionError A
    → B
    → (A → M B)
    → Context × Result SessionError B
on_error (c, ok a) b f = f a c
on_error (c, err e) b f = (c, ok b)
on_error (c, panic) b f = (c, panic)

infixl 5 ◌>>=◌ ◌>>◌
abbrev pub ◌>>=◌ : {A B : Type 0} → M A → (A → M B) → M B
◌>>=◌ m f c = and_then (m c) f

abbrev pub ◌>>◌ : {B : Type 0} → M (Unit {0}) → M B → M B
m >> k = m >>= λ _. k

abbrev pub pure : {A : Type 0} → A → M A
pure a c = (c, ok a)

abbrev pub fail : {A : Type 0} → SessionError → M A
fail e c = (c, err e)

abbrev pub ask : M Context
ask c = (c, ok c)

abbrev pub lift : {A : Type 0} → Result SessionError A → M A
lift r c = (c, r)

-- A read through a pointer; a dangling or nil one panics.
abbrev pub deref : {A : Type 0} → Option A → Result SessionError A
deref none = panic
deref (some a) = ok a

unfoldable pub load : ℕ → M Session
load p c = (c, deref (get_elem? c.store p))

unfoldable pub store_session : ℕ → Session → M (Unit {0})
store_session p s c = (record c { store = set c.store p s }, ok tt)

-- `&Session{…}`.
unfoldable pub alloc : Session → M ℕ
alloc s c = (record c { store = c.store ++ s ∷ [] }, ok (length c.store))
