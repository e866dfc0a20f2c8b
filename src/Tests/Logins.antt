-- ===== src/Tests/Logins.antt =====
-- ssh/server: the banner and the logins of one client.
use mini_shellhub.Prelude.{ℕ, [], ◌∷◌, ◌≡◌, ◌↔◌, refl, some, ok, true, codes}
use mini_shellhub.Host.{new_host}
use mini_shellhub.Target.{new_target}
use mini_shellhub.Session.Types.{Session, State, state_evaluated}
use mini_shellhub.Server.{no_banner, banner_handler, password_handler}
use mini_shellhub.Server.Banners.{opened}
use mini_shellhub.Server.Logins.{Holds, offer, password-accepts_iff}
use mini_shellhub.Server.Backing.{Inv}
use mini_shellhub.Server.Reachability.{password, publickey, context_run, history-Inv}
use mini_shellhub.Tests.Fixtures.{
  address, user_name, conn, tunnel, dead_tunnel, handshake, bridged_session, context,
}
use mini_shellhub.Session.Operations.{set_conn}
use mini_shellhub.Prelude.{contains, cut, split_n}
use mini_shellhub.Net.{split_host_port}

shows_no_banner : (banner_handler tunnel (opened user_name address (codes "id"))).1 ≡ ok no_banner
unfolding banner_handler new_host split_host_port cut contains new_target split_n
shows_no_banner = refl

context-Holds : (s : Session) (state : State) → Holds (context s state) 0 s state
context-Holds s state = record { snapped = refl; stored = refl }

password-accepts_iff_example :
    ((password_handler tunnel handshake
        (codes "secret")
        (context bridged_session state_evaluated)).1
      ≡ ok true)
    ↔ ((link : ℕ × ℕ) × (handshake conn (offer bridged_session (codes "secret")) ≡ some link))
unfolding set_conn
password-accepts_iff_example =
    password-accepts_iff tunnel handshake (codes "secret") (context bridged_session state_evaluated)
      0 bridged_session (context-Holds bridged_session state_evaluated) conn refl

history-Inv_example : Inv (
    context_run
      (banner_handler tunnel (opened user_name address (codes "id"))).0
      (password tunnel handshake (codes "guess") ∷ publickey dead_tunnel handshake ∷ []))
history-Inv_example =
    history-Inv tunnel user_name address (codes "id")
      (password tunnel handshake (codes "guess") ∷ publickey dead_tunnel handshake ∷ [])
