-- ===== src/Tests/Proxy.antt =====
-- agent/pkg/agent: the proxy and the file server of a host.
use mini_shellhub.Prelude.{
  Text, [], ◌∷◌, ◌≡◌, ◌↔◌, refl, Bool, true, false, some, ok, err, panic, codes, contains,
}
use mini_shellhub.Net.{AddrError, split_host_port, join_host_port}
use mini_shellhub.Net.Laws.{IsAddr}
use mini_shellhub.Agent.Config.{ℤ}
use mini_shellhub.Agent.Proxy.{http_proxy_handler, proxied, http_proxy_handler-proxied_iff}
use mini_shellhub.Agent.Sftp.{
  Environment, Kernel, chdir_call, setgid_call, setuid_call, serve_call, to_int, serves,
  new_sftp_server, serves-new_sftp_server,
}

-- A network that accepts each address that splits.
abbrev accepts : Text → Bool
accepts addr = elim (split_host_port addr) [ ok parts ↦ true | err e ↦ false | panic ↦ false ]

refuses : (addr : Text) (e : AddrError) → split_host_port addr ≡ err e → accepts addr ≡ false
refuses addr e h = rw (h, accepts) refl

web_IsAddr : IsAddr (codes "localhost") (codes "80")
unfolding contains
web_IsAddr = record {
  host_opens = refl;
  host_closes = refl;
  port_opens = refl;
  port_closes = refl;
  port_colon = refl;
}

http_proxy_handler-proxied_iff_example :
    (http_proxy_handler accepts true true (join_host_port (codes "localhost") (codes "80"))
      ≡ proxied)
    ↔ ((contains (codes "localhost") b':' ≡ false)
        × (accepts (join_host_port (codes "localhost") (codes "80")) ≡ true)
        × (true ≡ true)
        × (true ≡ true))
http_proxy_handler-proxied_iff_example =
    http_proxy_handler-proxied_iff accepts true true (codes "localhost") (codes "80") refuses
      web_IsAddr

abbrev environment : Environment
environment = record {
  home = some (codes "/home/a");
  gid = some (codes "100");
  uid = some (codes "1000");
}

abbrev kernel : Kernel
kernel = record {
  chdir = λ path. true;
  setgid = λ gid. true;
  setuid = λ uid. true;
  new_server = true;
}

serves_files : serves (new_sftp_server environment kernel) ≡ true
unfolding new_sftp_server
serves_files = refl

serves-new_sftp_server_example :
    (home : Text) × (gid : ℤ) × (uid : ℤ) × (environment.home ≡ some home)
    × (to_int environment.gid ≡ some gid)
    × (to_int environment.uid ≡ some uid)
    × (kernel.chdir home ≡ true)
    × (kernel.setgid gid ≡ true)
    × (kernel.setuid uid ≡ true)
    × (new_sftp_server environment kernel
        ≡ chdir_call home ∷ setgid_call gid ∷ setuid_call uid ∷ serve_call ∷ [])
serves-new_sftp_server_example = serves-new_sftp_server environment kernel serves_files
