-- ===== src/Agent/Keys/Laws.antt =====
-- agent/pkg/agent/pkg/keygen/keygen.go: a key that was generated is read back; one that was written in
-- part keeps the agent from starting.
use mini_shellhub.Prelude.{
  Text, ◌≡◌, ◌∙◌, true, false, none, some, ok, err, arith, lookup, lookup-insert_self, text_key,
}
use mini_shellhub.Agent.Startup.{Agent, Outside, initialize, public_key_failed}
use mini_shellhub.Agent.Startup.Laws.{initialize-ok}
use mini_shellhub.Agent.Keys.{
  Crypto, Attempt, Files, generate_private_key, read_public_key, file_exists, ensure_private_key,
  with_files, wrote_part, write_failed, pem_decode_failed,
}

-- PEM decoding gives back what was encoded.
abbrev pub Decodes : Crypto → Type 0
Decodes c = (key : Text) → c.decode_pem (c.encode_private key) ≡ some key

-- After a successful GeneratePrivateKey, ReadPublicKey of the file gives the generated key's public
-- half, where that key parses and PEM decoding gives back what was encoded.
pub generate_private_key-read_public_key :
    (c : Crypto) (a : Attempt) (name : Text) (fs : Files) (key public : Text)
    → Decodes c
    → a.generated ≡ some key
    → c.parse_private key ≡ some public
    → (generate_private_key c a name fs).1 ≡ ok tt
    → read_public_key c name (generate_private_key c a name fs).0 ≡ ok public
unfolding generate_private_key read_public_key
generate_private_key-read_public_key c a name fs key public d g p h =
    ground (arith, d key, lookup-insert_self name (c.encode_private key) fs)

module _ (c : Crypto) (a again : Attempt) (name part : Text) (fs : Files) where
  partly_written_key_exists :
      a.written ≡ wrote_part part
      → (generate_private_key c a name fs).1 ≡ err write_failed
      → file_exists name (generate_private_key c a name fs).0 ≡ true
  unfolding generate_private_key file_exists
  partly_written_key_exists w h = ground (arith, lookup-insert_self name part fs)

  -- A key whose writing fails leaves a file, which a later start takes for the key.
  pub partly_written_key_stays :
      a.written ≡ wrote_part part
      → c.decode_pem part ≡ none
      → (generate_private_key c a name fs).1 ≡ err write_failed
      → let fs' = (generate_private_key c a name fs).0 in
        ((ensure_private_key c again name fs').1 ≡ ok tt)
        × ((ensure_private_key c again name fs').0 ≡ fs')
        × (read_public_key c name fs' ≡ err pem_decode_failed)
  unfolding generate_private_key read_public_key ensure_private_key file_exists
  partly_written_key_stays w d h = ground (arith, lookup-insert_self name part fs)

initialize-unread :
    (o : Outside) (g : Agent)
    → o.new_client g.config.server_address ≡ true
    → o.key_exists g.config.private_key ≡ true
    → o.read_key g.config.private_key ≡ none
    → (initialize o g).1 ≡ err public_key_failed
unfolding initialize
initialize-unread o g n k r = ground arith

-- If the private key's file was written in part only, so that it holds no PEM block, then every later
-- start of an agent that can make its HTTP client fails when it reads the public key.
pub partly_written_key_blocks :
    (c : Crypto) (a again : Attempt) (part : Text) (fs : Files) (o : Outside) (g : Agent)
    → a.written ≡ wrote_part part
    → c.decode_pem part ≡ none
    → (generate_private_key c a g.config.private_key fs).1 ≡ err write_failed
    → o.new_client g.config.server_address ≡ true
    → (initialize (with_files c again (generate_private_key c a g.config.private_key fs).0 o) g).1
      ≡ err public_key_failed
unfolding with_files
partly_written_key_blocks c a again part fs o g w d h n =
    let name = g.config.private_key in
    let fs' = (generate_private_key c a name fs).0 in
    let (kept, same, unread) = partly_written_key_stays c a again name part fs w d h in
    initialize-unread (with_files c again fs' o) g n
      (partly_written_key_exists c a again name part fs w h) (ground (arith, same, unread))

ensure-generates :
    (c : Crypto) (a : Attempt) (name : Text) (fs : Files)
    → lookup name fs ≡ none
    → ensure_private_key c a name fs ≡ generate_private_key c a name fs
unfolding ensure_private_key file_exists
ensure-generates c a name fs n = ground arith

initialize-generated :
    (o : Outside) (g g' : Agent)
    → o.key_exists g.config.private_key ≡ false
    → initialize o g ≡ (g', ok tt)
    → o.generate_key g.config.private_key ≡ true
unfolding initialize
initialize-generated o g g' k h = ground arith

first_start-generates :
    (c : Crypto) (a : Attempt) (fs : Files) (o : Outside) (g g' : Agent)
    → lookup g.config.private_key fs ≡ none
    → initialize (with_files c a fs o) g ≡ (g', ok tt)
    → (generate_private_key c a g.config.private_key fs).1 ≡ ok tt
unfolding with_files file_exists
first_start-generates c a fs o g g' n h =
    let made = initialize-generated (with_files c a fs o) g g' (ground arith) h in
    ground (arith, made)

-- An agent that was initialized where no key's file was has, as its encoded public key, the public half
-- of the key that it has generated, where that key parses and PEM decoding gives back what was encoded.
pub first_start_registers :
    (c : Crypto) (a : Attempt) (fs : Files) (o : Outside) (g g' : Agent) (key public : Text)
    → Decodes c
    → lookup g.config.private_key fs ≡ none
    → a.generated ≡ some key
    → c.parse_private key ≡ some public
    → initialize (with_files c a fs o) g ≡ (g', ok tt)
    → g'.pub_key ≡ some (c.encode_public public)
unfolding with_files
first_start_registers c a fs o g g' key public d n k p h =
    let name = g.config.private_key in
    let made = first_start-generates c a fs o g g' n h in
    let read = generate_private_key-read_public_key c a name fs key public d k p made in
    (initialize-ok (with_files c a fs o) g g' h).4
    ∙ ground (arith, ensure-generates c a name fs n, read)
