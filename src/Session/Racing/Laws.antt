-- ===== src/Session/Racing/Laws.antt =====
-- ssh/session/session_minimal.go: when no session channel meets a seat that is taken.
use mini_shellhub.Prelude.{
  Reach, here, next, Reach-preserves, ℕ, ◌+◌, ◌^◌, ◌<◌, List, [], ◌∷◌, ◌++◌, ◌≡◌, ◌≢◌, ◌↔◌, ◌⊎◌,
  inl, inr, refl, sym, ◌∙◌, Bool, true, false, ◌||◌, not, ltb, length, none, lookup, nat_key, All,
  arith, lookup-insert, lookup-insert_self,
}
use mini_shellhub.Session.Types.{Session}
use mini_shellhub.Session.Channels.{set_client_channel}
use mini_shellhub.Session.Seats.{Seated, client_seat_free}
use mini_shellhub.Session.Racing.{
  Race, start, load_seat, count_up, accept, Step, loads, counts, accepts,
}

-- The seats of a list, without another one.
abbrev Without : ℕ → List ℕ → Type 0
Without n ns = All (λ (m : ℕ). m ≢ n) ns

abbrev Distinct : List ℕ → Type 0
Distinct [] = Unit {0}
Distinct (n ∷ ns) = Without n ns × Distinct ns

module _ (P : ℕ → Type 0) where
  All-split :
      (before : List ℕ) (n : ℕ) (after : List ℕ)
      → All P (before ++ n ∷ after)
      → P n × All P (before ++ after)
  All-split [] n after a = a
  All-split (m ∷ before) n after a = let (p, q) = All-split before n after a.1 in (p, (a.0, q))

  All-imp : (Q : ℕ → Type 0) → ((n : ℕ) → P n → Q n) → (ns : List ℕ) → All P ns → All Q ns
  All-imp Q f [] a = tt
  All-imp Q f (n ∷ ns) a = (f n a.0, All-imp Q f ns a.1)

  All-both :
      (Q R : ℕ → Type 0)
      → ((n : ℕ) → P n → Q n → R n)
      → (ns : List ℕ) → All P ns
      → All Q ns
      → All R ns
  All-both Q R f [] a b = tt
  All-both Q R f (n ∷ ns) a b = (f n a.0 b.0, All-both Q R f ns a.1 b.1)

Distinct-split :
    (before : List ℕ) (n : ℕ) (after : List ℕ)
    → Distinct (before ++ n ∷ after)
    → Without n (before ++ after) × Distinct (before ++ after)
Distinct-split [] n after d = d
Distinct-split (m ∷ before) n after d =
    let (p, q) = All-split (λ k. k ≢ m) before n after d.0 in
    let (w, e) = Distinct-split before n after d.1 in ((λ h. p (sym h), w), (q, e))

single :
    (before : List ℕ) (n m : ℕ) (after : List ℕ)
    → before ++ n ∷ after ≡ m ∷ []
    → (n ≡ m) × (before ++ after ≡ [])
single [] n m after e = (cc, cc)
single (k ∷ []) n m after e = absurd cc
single (k ∷ j ∷ before) n m after e = absurd cc

none_loaded : (ns : List ℕ) → (false || not (ltb 0 (length ns))) ≡ true → ns ≡ []
none_loaded [] h = refl
none_loaded (n ∷ ns) h = absurd (ground arith)

-- A seat that was given and has no channel.
abbrev Fresh : Session → ℕ → Type 0
Fresh s n = (n < s.next_seat) × (lookup n s.client.channels ≡ none)

record Inv (r : Race) : Type 0 where
  alone :
      (r.loaded ≡ []) ⊎ (r.loaded ≡ r.session.next_seat ∷ []) × (r.session.next_seat + 1 < 2 ^ 64)
  taken : (k : ℕ) → lookup k r.session.client.channels ≢ none → k < r.session.next_seat
  fresh : All (Fresh r.session) r.seated
  distinct : Distinct r.seated
  unrefused : r.refused ≡ 0

-- The one handler that has read the next seat counts it up.
counted :
    {r : Race} (before : List ℕ) (seat : ℕ) (after : List ℕ)
    → r.loaded ≡ before ++ seat ∷ after
    → Inv r
    → (seat ≡ r.session.next_seat) × (before ++ after ≡ []) × (r.session.next_seat + 1 < 2 ^ 64)
counted [] seat after e v = elim v.alone [
  | inl h ↦ absurd cc
  | inr (h, b) ↦ let (s, n) = single [] seat _ after (sym e ∙ h) in (s, n, b)
]
counted (k ∷ before) seat after e v = elim v.alone [
  | inl h ↦ absurd cc
  | inr (h, b) ↦ let (s, n) = single (k ∷ before) seat _ after (sym e ∙ h) in (s, n, b)
]

Step-Inv : {r q : Race} → Step false r q → Inv r → Inv q
unfolding load_seat count_up accept set_client_channel
Step-Inv {r} (loads o b) v = record {
  alone = inr (rw (none_loaded r.loaded o) refl, b);
  taken = v.taken;
  fresh = v.fresh;
  distinct = v.distinct;
  unrefused = v.unrefused;
}
Step-Inv {r} (counts before seat after e) v =
    let (s, n, b) = counted before seat after e v in
    record {
      alone = inl n;
      taken = λ k h. omega (arith, v.taken k h);
      fresh = (
        (omega arith, ground (arith, v.taken seat)),
        All-imp (Fresh r.session) _ (λ m f. (omega arith, f.1)) r.seated v.fresh,
      );
      distinct = (
        All-imp (Fresh r.session) (λ m. m ≢ seat) (λ m f h. omega arith) r.seated v.fresh,
        v.distinct,
      );
      unrefused = v.unrefused;
    }
Step-Inv {r} (accepts before seat after channel e) v =
    let fresh : All (Fresh r.session) (before ++ seat ∷ after) = rw e at v.fresh in
    let (f, fs) = All-split (Fresh r.session) before seat after fresh in
    let distinct : Distinct (before ++ seat ∷ after) = rw e at v.distinct in
    let (w, d) = Distinct-split before seat after distinct in
    let others : All (Fresh (set_client_channel seat channel r.session)) (before ++ after) =
      All-both (Fresh r.session) (λ m. m ≢ seat) _
        (λ m g h. (g.0, ground (arith, lookup-insert seat m channel r.session.client.channels)))
        (before ++ after) fs w in
    rw f.1 record {
      alone = v.alone;
      taken =
          λ k h. ground (arith, lookup-insert seat k channel r.session.client.channels, v.taken k);
      fresh = others;
      distinct = d;
      unrefused = v.unrefused;
    }

Reach-Inv : {s : Session} {r : Race} → Seated s → Reach (Step false) (start s) r → Inv r
Reach-Inv v r =
    Reach-preserves (λ q w. Step-Inv) r
      (record {
        alone = inl refl;
        taken = v.client_seats;
        fresh = tt;
        distinct = tt;
        unrefused = refl;
      })

module _ (s : Session) (v : Seated s) where
  -- Two handlers read the same seat, and the second to accept its channel is refused.
  abbrev both_seated : Race
  both_seated =
      count_up s.next_seat []
        (count_up s.next_seat (s.next_seat ∷ []) (load_seat (load_seat (start s))))

  abbrev refused : Race
  refused = accept s.next_seat 1 [] (accept s.next_seat 0 (s.next_seat ∷ []) both_seated)

  refused-Reach : Reach (Step true) (start s) refused
  unfolding load_seat count_up accept
  refused-Reach =
      next
        (next
          (next
            (next (next (next here (loads refl v.left)) (loads refl v.left))
              (counts [] s.next_seat _ refl))
            (counts [] s.next_seat [] refl))
          (accepts [] s.next_seat _ 0 refl))
        (accepts [] s.next_seat [] 1 (ground (arith, client_seat_free s v)))

  refused-one : refused.refused ≡ 1
  unfolding load_seat count_up accept set_client_channel
  refused-one =
      ground (arith, client_seat_free s v, lookup-insert_self s.next_seat 0 s.client.channels)

-- For a session whose channels all sit on seats given before, the session channels that the client
-- opens at once never meet a seat that is taken, whatever the order of their handlers' steps, exactly
-- if no handler reads the next seat while another has yet to count it up. NewSeat does not see to that.
pub seats_free_iff :
    (s : Session) (overlaps : Bool)
    → Seated s
    → ((r : Race) → Reach (Step overlaps) (start s) r → r.refused ≡ 0) ↔ (overlaps ≡ false)
seats_free_iff s true v = (
  λ h. absurd (omega (arith, refused-one s v, h (refused s v) (refused-Reach s v))),
  λ e. absurd (ground arith),
)
seats_free_iff s false v = (λ h. refl, λ e r q. (Reach-Inv v q).unrefused)
