-- ===== src/OperationList/Push.antt =====
-- However the threads interleave, the list holds the operations whose exchange succeeded since it was last
-- taken, the latest first.
use uvexec.Base.{
  ◌≡◌, refl, sym, subst, ◌∙◌, ◌≢◌, inl, inr, Bool, true, false, not, ◌&&◌, some, List, [], ◌∷◌,
  arith, ◌==◌, if◌then◌else◌, Bool-cases,
}
use uvexec.IntrusiveList.{Ptr, update}
use uvexec.IntrusiveList.Chain.{has}
use uvexec.OperationList.{
  Place, outside, loaded, linked, listed, taken, Shared, move_to, Action, load, link, exchange,
  grab, applied, take_listed, step,
}
use uvexec.OperationList.Chain.{IsChain, IsChain-frame}

-- The linearisation: what an action that is possible does to the list.
abbrev wins : Ptr → Place → Bool → Bool
wins head (linked cur) spurious = head == cur && not spurious
wins head _ spurious = false

unfoldable pub effect : Action → Shared → List Ptr → List Ptr
effect (exchange op spurious) s xs = if wins s.head (s.place op) spurious then op ∷ xs else xs
effect grab s xs = []
effect _ s xs = xs

abbrev is_listed : Place → Bool
is_listed listed = true
is_listed _ = false

pub record IsStack (s : Shared) (xs : List Ptr) : Type 0 where
  pub chain : IsChain s.next s.head xs
  -- an operation is in the chain exactly when it is listed
  pub members : (a : Ptr) → has a xs ≡ is_listed (s.place a)
  -- between the write of `Next` and the exchange nobody else changes it
  pub own : (a cur : Ptr) → s.place a ≡ linked cur → s.next a ≡ cur

-- The actions name operations, which are not nullptr.
abbrev pub IsSane : Action → Type 0
IsSane (load op) = op ≢ 0
IsSane (link op) = op ≢ 0
IsSane (exchange op spurious) = op ≢ 0
IsSane grab = Unit
IsSane (applied op) = op ≢ 0

not_listed_take : (p : Place) → is_listed (take_listed p) ≡ false
not_listed_take listed = refl
not_listed_take outside = refl
not_listed_take (loaded cur) = refl
not_listed_take (linked cur) = refl
not_listed_take taken = refl

linked_take : (p : Place) (cur : Ptr) → take_listed p ≡ linked cur → p ≡ linked cur
linked_take listed cur h = absurd (cc)
linked_take outside cur h = h
linked_take (loaded x) cur h = h
linked_take (linked x) cur h = h
linked_take taken cur h = h

module _ (s : Shared) (xs : List Ptr) (l : IsStack s xs) where
  -- A thread that moves on, with no operation listed before or after.
  moved :
      (op : Ptr) (p : Place)
      → is_listed (s.place op) ≡ false
      → is_listed p ≡ false
      → ((cur : Ptr) → p ≢ linked cur)
      → IsStack (record s { place = move_to s.place op p }) xs
  moved op p old new quiet = record {
    chain = l.chain;
    members = λ a. ground (arith, l.members a);
    own = λ a cur h. ground (arith, l.own a cur, quiet cur);
  }

  link_moved :
      (op cur : Ptr)
      → s.place op ≡ loaded cur
      → IsStack
          (record s { next = update s.next op cur; place = move_to s.place op (linked cur) })
          xs
  link_moved op cur e = record {
    chain =
        IsChain-frame s.next (update s.next op cur) s.head xs (λ a i. ground (arith, l.members a))
          l.chain;
    members = λ a. ground (arith, l.members a);
    own = λ a c h. ground (arith, l.own a c);
  }

  won :
      (op cur : Ptr)
      → op ≢ 0
      → s.place op ≡ linked cur
      → s.head ≡ cur
      → IsStack (record s { head = op; place = move_to s.place op listed }) (op ∷ xs)
  won op cur ne e top = record {
    chain = (
      refl,
      ne,
      ground (arith, l.members op),
      (let under : s.next op ≡ s.head = l.own op cur e ∙ sym top in rw under l.chain),
    );
    members = λ a. ground (arith, l.members a);
    own = λ a c h. ground (arith, l.own a c);
  }

  grabbed : IsStack (record s { head = 0; place = λ a. take_listed (s.place a) }) []
  grabbed = record {
    chain = refl;
    members = λ a. sym (not_listed_take (s.place a));
    own = λ a c h. l.own a c (linked_take (s.place a) c h);
  }

  exchanged :
      (op cur : Ptr) (spurious : Bool) (t : Shared)
      → op ≢ 0
      → s.place op ≡ linked cur
      → step (exchange op spurious) s ≡ some t
      → IsStack t (effect (exchange op spurious) s xs)
  unfolding step effect
  exchanged op cur spurious t ne e h = elim (Bool-cases (s.head == cur && not spurious)) [
    | inl hit ↦
        let same : record s { head = op; place = move_to s.place op listed } ≡ t = ground arith in
        let grown : effect (exchange op spurious) s xs ≡ op ∷ xs = ground arith in
        rw grown (subst (λ z. IsStack z (op ∷ xs)) same (won op cur ne e (ground arith)))
    | inr miss ↦
        let same : record s { place = move_to s.place op (loaded s.head) } ≡ t = ground arith in
        let kept : effect (exchange op spurious) s xs ≡ xs = ground arith in
        rw kept (
          subst (λ z. IsStack z xs) same (moved op (loaded s.head) (ground arith) refl (λ c q. cc)))
  ]

  loaded_at :
      (op : Ptr) (t : Shared) (p : Place)
      → s.place op ≡ p
      → step (load op) s ≡ some t
      → IsStack t xs
  unfolding step
  loaded_at op t outside e h =
      let same : record s { place = move_to s.place op (loaded s.head) } ≡ t = ground arith in
      subst (λ z. IsStack z xs) same (moved op (loaded s.head) (ground arith) refl (λ c q. cc))
  loaded_at op t p e h = absurd (ground arith)

  linked_at :
      (op : Ptr) (t : Shared) (p : Place)
      → s.place op ≡ p
      → step (link op) s ≡ some t
      → IsStack t xs
  unfolding step
  linked_at op t (loaded cur) e h =
      let same : record s { next = update s.next op cur; place = move_to s.place op (linked cur) }
          ≡ t =
        ground arith in
      subst (λ z. IsStack z xs) same (link_moved op cur e)
  linked_at op t p e h = absurd (ground arith)

  forgotten_at :
      (op : Ptr) (t : Shared) (p : Place)
      → s.place op ≡ p
      → step (applied op) s ≡ some t
      → IsStack t xs
  unfolding step
  forgotten_at op t taken e h =
      let same : record s { place = move_to s.place op outside } ≡ t = ground arith in
      subst (λ z. IsStack z xs) same (moved op outside (ground arith) refl (λ c q. cc))
  forgotten_at op t p e h = absurd (ground arith)

  exchanged_at :
      (op : Ptr) (spurious : Bool) (t : Shared) (p : Place)
      → op ≢ 0
      → s.place op ≡ p
      → step (exchange op spurious) s ≡ some t
      → IsStack t (effect (exchange op spurious) s xs)
  unfolding step
  exchanged_at op spurious t (linked cur) ne e h = exchanged op cur spurious t ne e h
  exchanged_at op spurious t p ne e h = absurd (ground arith)

  -- The list refines a stack of operations, however the steps of the threads interleave: an exchange that succeeds
  -- puts its operation in front, `Grab` leaves nothing, and no other step changes what the list holds.
  pub step-IsStack :
      (a : Action) (t : Shared) → IsSane a → step a s ≡ some t → IsStack t (effect a s xs)
  unfolding step effect
  step-IsStack (load op) t sane h = loaded_at op t (s.place op) refl h
  step-IsStack (link op) t sane h = linked_at op t (s.place op) refl h
  step-IsStack (exchange op spurious) t sane h = exchanged_at op spurious t (s.place op) sane refl h
  step-IsStack grab t sane h =
      let same : record s { head = 0; place = λ a. take_listed (s.place a) } ≡ t = ground arith in
      subst (λ z. IsStack z []) same grabbed
  step-IsStack (applied op) t sane h = forgotten_at op t (s.place op) refl h
