-- ===== src/Agent/Startup.antt =====
-- agent/pkg/agent/agent.go: Initialize and its steps, GetInfo and CheckUpdate. The HTTP client, the
-- key files and the platform are parameters, by what each call returns.
pub mod Laws
use mini_shellhub.Prelude.{
  ℕ, Text, [], ◌≡◌, ◌≢◌, refl, Bool, true, false, not, ◌&&◌, Option, none, some, Result, ok, err,
  panic, text_eq, if◌then◌else◌, codes,
}
use mini_shellhub.Agent.Config.{Config}

pub record DeviceInfo : Type 0 where
  pub id : Text
  pub pretty_name : Text
  pub version : Text
  pub platform : Text
  pub arch : Text

pub record AuthResponse : Type 0 where
  pub name : Text
  pub namespace : Text
  pub token : Text

pub record ServerInfo : Type 0 where
  pub version : Text
  pub ssh_endpoint : Text

-- DeviceAuthRequest.
pub record AuthRequest : Type 0 where
  pub info : Option DeviceInfo
  pub hostname : Text
  pub identity : Option Text
  pub tenant_id : Text
  pub public_key : Text

-- The fields of an agent that change. `identity` is the MAC of its DeviceIdentity; a key is its PEM
-- text.
pub record Agent : Type 0 where
  pub config : Config
  pub has_client : Bool
  pub pub_key : Option Text
  pub identity : Option Text
  pub info : Option DeviceInfo
  pub auth_data : Option AuthResponse
  pub server_info : Option ServerInfo
  pub device_name : Text
  pub closed : Bool

-- What lies outside: the client's constructor and calls, the file system's keys, the build's values.
pub record Outside : Type 0 where
  pub new_client : Text → Bool
  pub key_exists : Text → Bool
  pub generate_key : Text → Bool
  pub read_key : Text → Option Text
  pub get_info : Option ServerInfo
  pub auth_device : AuthRequest → Option AuthResponse
  pub agent_version : Text
  pub agent_platform : Text
  pub goos : Text
  pub goarch : Text

pub data StartError : Type 0 where
  client_failed key_failed public_key_failed probe_failed no_identity_and_hostname auth_failed :
      StartError

abbrev pub Call : Type 0 → Type 0
Call A = Agent → Agent × Result StartError A

abbrev pub and_then :
    {A B : Type 0} → Agent × Result StartError A → (A → Call B) → Agent × Result StartError B
and_then (a, ok x) f = f x a
and_then (a, err e) f = (a, err e)
and_then (a, panic) f = (a, panic)

infixl 5 ◌>>=◌ ◌>>◌
abbrev pub ◌>>=◌ : {A B : Type 0} → Call A → (A → Call B) → Call B
◌>>=◌ m f a = and_then (m a) f

abbrev pub ◌>>◌ : {B : Type 0} → Call (Unit {0}) → Call B → Call B
m >> k = m >>= λ _. k

make_client : Outside → Call (Unit {0})
make_client o a =
    if o.new_client a.config.server_address
    then (record a { has_client = true }, ok tt)
    else (record a { has_client = false }, err client_failed)

unfoldable pub generate_device_identity : Call (Unit {0})
generate_device_identity a =
    let id = a.config.preferred_identity in
    (record a { identity = some (if text_eq id [] then codes "00:00:00:00:00:00" else id) }, ok tt)

-- `HostMode.GetInfo`, which never fails: an identifier and a name.
unfoldable pub host_info : Outside → Text × Text
host_info o = (o.goos, o.goos)

unfoldable pub load_device_info : Outside → Call (Unit {0})
unfolding host_info
load_device_info o a = (
  record a {
    info = some (record {
      id = (host_info o).0;
      pretty_name = (host_info o).1;
      version = o.agent_version;
      platform = o.agent_platform;
      arch = o.goarch;
    });
  },
  ok tt,
)

unfoldable pub generate_private_key : Outside → Call (Unit {0})
generate_private_key o a =
    if o.key_exists a.config.private_key
    then (a, ok tt)
    else if o.generate_key a.config.private_key
    then (a, ok tt)
    else (a, err key_failed)

read_result : Option Text → Call (Unit {0})
read_result none a = (record a { pub_key = none }, err public_key_failed)
read_result (some key) a = (record a { pub_key = some key }, ok tt)

unfoldable pub read_public_key : Outside → Call (Unit {0})
unfolding read_result
read_public_key o a = read_result (o.read_key a.config.private_key) a

probe_result : Option ServerInfo → Call (Unit {0})
probe_result none a = (record a { server_info = none }, err probe_failed)
probe_result (some i) a = (record a { server_info = some i }, ok tt)

unfoldable pub probe_server_info : Outside → Call (Unit {0})
unfolding probe_result
probe_server_info o a = probe_result o.get_info a

unfoldable pub auth_request : Agent → Text → AuthRequest
auth_request a key = record {
  info = a.info;
  hostname = a.config.preferred_hostname;
  identity = a.identity;
  tenant_id = a.config.tenant_id;
  public_key = key;
}

unfoldable pub lacks_identity : Option Text → Bool
lacks_identity none = true
lacks_identity (some mac) = text_eq mac []

auth_result : Option AuthResponse → Call (Unit {0})
auth_result none a = (a, err auth_failed)
auth_result (some d) a = (record a { auth_data = some d }, ok tt)

-- Encoding a nil public key panics.
authorize_with : Outside → Option Text → Call (Unit {0})
unfolding auth_request lacks_identity auth_result
authorize_with o none a = (a, panic)
authorize_with o (some key) a =
    if text_eq a.config.preferred_hostname [] && lacks_identity a.identity
    then (a, err no_identity_and_hostname)
    else auth_result (o.auth_device (auth_request a key)) a

unfoldable pub authorize : Outside → Call (Unit {0})
unfolding authorize_with
authorize o a = authorize_with o a.pub_key a

store_closed : Bool → Call (Unit {0})
store_closed b a = (record a { closed = b }, ok tt)

unfoldable pub initialize : Outside → Call (Unit {0})
unfolding make_client generate_device_identity load_device_info generate_private_key read_public_key
    probe_server_info authorize store_closed
initialize o = do
  make_client o
  generate_device_identity
  load_device_info o
  generate_private_key o
  read_public_key o
  probe_server_info o
  authorize o
  store_closed false

info_result : Option ServerInfo → Agent → Agent × Option ServerInfo
info_result none a = (a, none)
info_result (some i) a = (record a { server_info = some i }, some i)

info_cached : Outside → Option ServerInfo → Agent → Agent × Option ServerInfo
unfolding info_result
info_cached o (some i) a = (a, some i)
info_cached o none a = info_result o.get_info a

-- Agent.GetInfo; none is an error of the request.
unfoldable pub get_info : Outside → Agent → Agent × Option ServerInfo
unfolding info_cached
get_info o a = info_cached o a.server_info a

-- CheckUpdate: the server's version, as the semver library reads it.
unfoldable pub check_update : {V : Type 0} → (Text → Option V) → Outside → Option V
check_update parse o = elim o.get_info [ none ↦ none | some i ↦ parse i.version ]

-- The package's own GetInfo, by its server's address.
unfoldable pub fetch_info : Outside → Text → Option ServerInfo
fetch_info o address = if o.new_client address then o.get_info else none
