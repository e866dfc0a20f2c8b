-- ===== src/Channels/Pipes/Recording.antt =====
-- ssh/server/channels/utils.go, pipe: the writers that the agent's output is copied to, with the recorder
-- where the edition is a cloud one. io.MultiWriter writes each piece to its writers in order and stops at
-- one that fails or takes less; `takes` is what the client's channel does with a piece.
use mini_shellhub.Prelude.{
  ℕ, Text, List, [], ◌∷◌, ◌++◌, ◌≡◌, refl, Bool, true, false, ◌||◌, ◌==◌, ==_refl, length,
  Bool-cases, inl, inr, ap, sym, ◌∙◌, append-nil, append_assoc, arith, if◌then◌else◌,
}

-- Who writes, and what the client and the event stream have got.
pub record Output : Type 0 where
  pub recording : Bool
  pub to_client : Text
  pub events : List Text

-- `writers`: the recorder is made and Recorded succeeds, since neither does anything that can fail.
unfoldable pub begin_output : Bool → Bool → Output
begin_output enterprise cloud = record {
  recording = enterprise || cloud;
  to_client = [];
  events = [];
}

-- Recorder.Write: the event, and the length of the output.
unfoldable pub record_output : Text → Output → Output × ℕ
record_output output w = (record w { events = w.events ++ output ∷ [] }, length output)

after_client : Bool → Text → Output → Output × Bool
unfolding record_output
after_client false piece w = (w, false)
after_client true piece w =
    if w.recording
    then (let (w', n) = record_output piece w in (w', n == length piece))
    else (w, true)

-- The write of one piece to all writers, and whether all have taken it.
unfoldable pub multi_write : (Text → Bool) → Text → Output → Output × Bool
unfolding after_client
multi_write takes piece w =
    after_client (takes piece) piece
      (if takes piece then record w { to_client = w.to_client ++ piece } else w)

go_on : Bool → Output → Output → Output
go_on false w rest = w
go_on true w rest = rest

-- io.Copy, until a write fails.
unfoldable pub copy_output : (Text → Bool) → List Text → Output → Output
unfolding multi_write go_on
copy_output takes [] w = w
copy_output takes (piece ∷ pieces) w =
    let (w', all) = multi_write takes piece w in
    let rest = copy_output takes pieces w' in go_on all w' rest

-- The bytes of the events.
abbrev pub joined : List Text → Text
joined [] = []
joined (piece ∷ pieces) = piece ++ joined pieces

multi_write_lem :
    (takes : Text → Bool) (piece : Text) (w : Output)
    → ((multi_write takes piece w).1 ≡ takes piece)
      × ((multi_write takes piece w).0.to_client
          ≡ (if takes piece then w.to_client ++ piece else w.to_client))
      × ((multi_write takes piece w).0.recording ≡ w.recording)
      × ((multi_write takes piece w).0.events ≡ (
          if takes piece
          then (if w.recording then w.events ++ piece ∷ [] else w.events)
          else w.events))
unfolding multi_write
multi_write_lem takes piece w =
    ground (arith, ==_refl (length piece), Bool-cases (takes piece), Bool-cases w.recording)

go_on_both :
    (P : Output → Output → Type 0) (all : Bool) (v v' w w' : Output)
    → P v w
    → P v' w'
    → P (go_on all v v') (go_on all w w')
unfolding go_on
go_on_both P false v v' w w' p q = p
go_on_both P true v v' w w' p q = q

abbrev SameOutput : Output → Output → Type 0
SameOutput v w = v.to_client ≡ w.to_client

abbrev IsFaithful : Output → Output → Type 0
IsFaithful w _ = joined w.events ≡ w.to_client

-- The client gets the same whether its session is recorded or not.
pub recording_hides_nothing :
    (takes : Text → Bool) (pieces : List Text) (v w : Output)
    → v.to_client ≡ w.to_client
    → (copy_output takes pieces v).to_client ≡ (copy_output takes pieces w).to_client
unfolding copy_output
recording_hides_nothing takes [] v w e = e
recording_hides_nothing takes (piece ∷ pieces) v w e =
    let a = multi_write_lem takes piece v in
    let b = multi_write_lem takes piece w in
    let same : (multi_write takes piece v).0.to_client ≡ (multi_write takes piece w).0.to_client =
      rw (a.1, b.1, e) refl in
    let rest =
      recording_hides_nothing takes pieces (multi_write takes piece v).0
        (multi_write takes piece w).0 same in
    rw (a.0, b.0) (go_on_both SameOutput (takes piece) _ _ _ _ same rest)

joined-last :
    (pieces : List Text) (piece : Text) → joined (pieces ++ piece ∷ []) ≡ joined pieces ++ piece
joined-last [] piece = append-nil piece
joined-last (p ∷ pieces) piece =
    ap (λ t. p ++ t) (joined-last pieces piece) ∙ sym (append_assoc p (joined pieces) piece)

-- A session that is recorded has in its events the bytes that its client got, in order, and no others,
-- wherever the copy ends.
pub recording_is_faithful :
    (takes : Text → Bool) (pieces : List Text) (w : Output)
    → w.recording ≡ true
    → joined w.events ≡ w.to_client
    → joined (copy_output takes pieces w).events ≡ (copy_output takes pieces w).to_client
unfolding copy_output
recording_is_faithful takes [] w r e = e
recording_is_faithful takes (piece ∷ pieces) w r e =
    let m = (multi_write takes piece w).0 in
    let a = multi_write_lem takes piece w in
    let kept : joined m.events ≡ m.to_client =
      rw (a.1, a.3, r)
        elim (Bool-cases (takes piece)) [
          | inl h ↦ rw h (joined-last w.events piece ∙ ap (λ t. t ++ piece) e)
          | inr h ↦ rw h e
        ] in
    let rest = recording_is_faithful takes pieces m (a.2 ∙ r) kept in
    go_on_both IsFaithful (multi_write takes piece w).1 m (copy_output takes pieces m) m
      (copy_output takes pieces m) kept rest
