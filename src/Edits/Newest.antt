-- ===== src/Edits/Newest.antt =====
-- src/baileys/connection.ts (editSuperseded in the deliveries of edits): what is kept of a message
-- while its edits are delivered.
pub mod Kept
use baileys_api.Prelude.{
  ℕ, ◌≡◌, refl, sym, String, Bool, true, false, Option, none, some, List, [], ◌∷◌, ◌++◌, ◌==◌,
  get_or, arith, if◌then◌else◌, if_both, if_cases, Bool-cases, inl, inr, eq_iff, ap, subst,
}
use baileys_api.Entries.{lookup, assign, remove, lookup-assign, lookup-remove}
use baileys_api.Edits.{EditPosition, is_before, edit_superseded, claim_edit_position}
use baileys_api.Edits.Positions.{IsUpTo, IsUpTo-trans, IsUpTo-refl, lookup-claim_edit_position}
use baileys_api.Edits.Chains.{
  Work, encrypted, delivering, Edits, is_delivering, chain_of, claim, enqueue_edit_delivery, leave,
}

-- The work has claimed nothing, or a position that is not newer than this one.
abbrev pub IsQueued : EditPosition → Work → Type 0
IsQueued applied (encrypted p) = Unit {0}
IsQueued applied (delivering p n) = IsUpTo p applied

abbrev pub AllQueued : EditPosition → List Work → Type 0
AllQueued applied [] = Unit {0}
AllQueued applied (work ∷ chain) = IsQueued applied work × AllQueued applied chain

-- What was posted for this message, latest first, never goes up, and starts at this or below.
abbrev pub IsPosted : String → EditPosition → List (String × EditPosition) → Type 0
IsPosted target applied [] = Unit {0}
IsPosted target applied ((k, p) ∷ log) =
    ((k == target) ≡ true → IsUpTo p applied)
    × IsPosted target (if k == target then p else applied) log

-- The position of this message is remembered, and nothing newer is queued or was posted.
pub record IsNewestAt (target : String) (applied : EditPosition) (r : Edits) : Type 0 where
  pub remembered : lookup r.edited_at target ≡ some applied
  pub queued : AllQueued applied (chain_of r target)
  pub in_order : IsPosted target applied r.posted

abbrev pub IsNewest : String → Edits → Type 0
IsNewest target r = (applied : EditPosition) × IsNewestAt target applied r

-- What a claim, of this message or another, does to its position.
pub record Next (target : String) (applied : EditPosition) (r q : Edits) : Type 0 where
  pub next : EditPosition
  pub remembered : lookup q.edited_at target ≡ some next
  pub grows : IsUpTo applied next
  pub same_chains : q.edit_deliveries ≡ r.edit_deliveries
  pub same_posted : q.posted ≡ r.posted

IsQueued-grows : (a b : EditPosition) (w : Work) → IsUpTo a b → IsQueued a w → IsQueued b w
IsQueued-grows a b (encrypted p) h k = tt
IsQueued-grows a b (delivering p n) h k = IsUpTo-trans p a b k h

pub AllQueued-grows :
    (a b : EditPosition) (l : List Work) → IsUpTo a b → AllQueued a l → AllQueued b l
AllQueued-grows a b [] h k = tt
AllQueued-grows a b (w ∷ l) h k = (IsQueued-grows a b w h k.0, AllQueued-grows a b l h k.1)

pub AllQueued-append :
    (a : EditPosition) (l : List Work) (w : Work)
    → AllQueued a l
    → IsQueued a w
    → AllQueued a (l ++ (w ∷ []))
AllQueued-append a [] w h k = (k, tt)
AllQueued-append a (x ∷ l) w h k = (h.0, AllQueued-append a l w h.1 k)

pub IsPosted-grows :
    (t : String) (a b : EditPosition) (log : List (String × EditPosition))
    → IsUpTo a b
    → IsPosted t a log
    → IsPosted t b log
IsPosted-grows t a b [] h k = tt
IsPosted-grows t a b ((j, p) ∷ log) h k =
    (λ e. IsUpTo-trans p a b (k.0 e) h, raised (j == t) (IsPosted-grows t a b log h) k.1)
  where
    raised :
        (c : Bool)
        → (IsPosted t a log → IsPosted t b log)
        → IsPosted t (if c then p else a) log
        → IsPosted t (if c then p else b) log
    raised true f x = x
    raised false f x = f x

pub next-IsNewestAt :
    (t : String) (a : EditPosition) (r q : Edits) (n : Next t a r q)
    → IsNewestAt t a r
    → IsNewestAt t n.next q
next-IsNewestAt t a r q n h = record {
  remembered = n.remembered;
  queued = rw n.same_chains (AllQueued-grows a n.next (chain_of r t) n.grows h.queued);
  in_order = rw n.same_posted (IsPosted-grows t a n.next r.posted n.grows h.in_order);
}

refused :
    (b : String → Bool) (k : String) (p : EditPosition) (m : List (String × EditPosition))
    → edit_superseded m k p ≡ true
    → (claim_edit_position b k p m).1 ≡ false
unfolding claim_edit_position
refused b k p m e = ground arith

pub claim-Next :
    (t k : String) (a p : EditPosition) (r : Edits)
    → is_delivering r t ≡ true
    → lookup r.edited_at t ≡ some a
    → (n : Next t a r (claim k p r).0) × ((claim k p r).1 ≡ true
        → (k == t) ≡ true
        → IsUpTo p n.next)
unfolding claim edit_superseded
claim-Next t k a p r busy h =
    let after = lookup-claim_edit_position (is_delivering r) r.edited_at k t p busy in
    elim (Bool-cases (edit_superseded r.edited_at k p)) [
      | inl e ↦ (
        record {
          next = a;
          remembered = ground (arith, after, e, h);
          grows = IsUpTo-refl a;
          same_chains = refl;
          same_posted = refl;
        },
        λ g. absurd (ground (arith, g, refused (is_delivering r) k p r.edited_at e)),
      )
      | inr e ↦ elim (Bool-cases (k == t)) [
        | inl same ↦ (
          record {
            next = p;
            remembered = ground (arith, after, e, same);
            grows = ground (arith, e, h, same, eq_iff k t);
            same_chains = refl;
            same_posted = refl;
          },
          λ g x. IsUpTo-refl p,
        )
        | inr other ↦ (
          record {
            next = a;
            remembered = ground (arith, after, e, h, other);
            grows = IsUpTo-refl a;
            same_chains = refl;
            same_posted = refl;
          },
          λ g x. absurd (ground (arith, x, other)),
        )
      ]
    ]

pub chain_of-enqueue_edit_delivery :
    (t k : String) (w : Work) (r : Edits)
    → chain_of (enqueue_edit_delivery k w r) t
      ≡ (if k == t then chain_of r t ++ (w ∷ []) else chain_of r t)
unfolding enqueue_edit_delivery
chain_of-enqueue_edit_delivery t k w r =
    ground (arith, lookup-assign r.edit_deliveries k t (chain_of r k ++ (w ∷ [])), eq_iff k t)

pub chain_of-leave :
    (t k : String) (l : List Work) (r : Edits)
    → chain_of (leave k l r) t ≡ (if k == t then l else chain_of r t)
unfolding leave
chain_of-leave t k [] r = ground (arith, lookup-remove r.edit_deliveries k t)
chain_of-leave t k (w ∷ l) r = ground (arith, lookup-assign r.edit_deliveries k t (w ∷ l))
