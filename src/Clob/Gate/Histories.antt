-- ===== src/Clob/Gate/Histories.antt =====
-- Histories of the gate: which authorities can still submit.
use rspm.Common.{
  ℕ, ◌≤◌, ◌<◌, ◌≡◌, ◌≢◌, refl, arith, Bool, true, false, Option, none, some, if_elim, not, ap, ◌↔◌,
  ◌⊎◌, inl, inr,
}
use rspm.Submission.{ProtocolVersion, ProtocolAuthority, protocol_eq, version_eq, v1, v2}
use rspm.Ws.State.{authority_eq}
use rspm.Clob.Gate.{
  GateState, closed, active, indeterminate, Gate, default_gate, generation, close, quarantine,
  mark_indeterminate, can_activate, activate, permit, matches, activate_if,
}

-- Whatever the tasks that share a gate do with it, one lock at a time.
pub data GateStep (g : Gate) : Gate → Type 0 where
  closes : GateStep g (close g)
  quarantines : (authority : ProtocolAuthority) → GateStep g (quarantine authority g)
  marks : (authority : ProtocolAuthority) → GateStep g (mark_indeterminate authority g)
  activates :
      (authority : ProtocolAuthority) (answer : Bool)
      → GateStep g (activate_if authority answer g).0

pub data GateReach (g : Gate) : Gate → Type 0 where
  here : GateReach g g
  next : {h k : Gate} → GateReach g h → GateStep h k → GateReach g k

pub GateState-cases :
    (s : GateState)
    → (s ≡ closed)
      ⊎ (((a : ProtocolAuthority) × (s ≡ active a))
          ⊎ ((a : ProtocolAuthority) × (s ≡ indeterminate a)))
GateState-cases closed = inl refl
GateState-cases (active a) = inr (inl (a, refl))
GateState-cases (indeterminate a) = inr (inr (a, refl))

-- An active authority is not quarantined.
abbrev IsOpenAbove : ℕ → GateState → Type 0
IsOpenAbove q (active a) = q < generation a
IsOpenAbove q _ = Unit

abbrev pub IsOpen : Gate → Type 0
IsOpen g = IsOpenAbove g.quarantined_through_generation g.state

close-IsOpen : (g : Gate) → IsOpen g → IsOpen (close g)
unfolding close
close-IsOpen g o = elim (GateState-cases g.state) [
  | inl e ↦ rw (e, close) tt
  | inr (inl (a, e)) ↦ rw (e, close) tt
  | inr (inr (a, e)) ↦ rw (e, close) tt
]

GateStep-IsOpen : {g h : Gate} → GateStep g h → IsOpen g → IsOpen h
unfolding quarantine mark_indeterminate activate_if can_activate activate
GateStep-IsOpen {g} closes o = close-IsOpen g o
GateStep-IsOpen {g} (quarantines b) o = elim (GateState-cases g.state) [
  | inl e ↦ rw (e, quarantine) tt
  | inr (inl (a, e)) ↦ rw (e, quarantine) tt
  | inr (inr (a, e)) ↦ rw (e, quarantine) tt
]
GateStep-IsOpen {g} (marks b) o = tt
GateStep-IsOpen {g} (activates b answer) o =
    if_elim (λ (r : Gate × Option Bool). IsOpen (r.0)) (not (can_activate b g)) (λ _. o)
      (λ allowed.
        if_elim (λ (r : Gate × Option Bool). IsOpen (r.0)) answer (λ _. ground arith) (λ _. o))

close-quarantined :
    (g : Gate) → g.quarantined_through_generation ≤ (close g).quarantined_through_generation
unfolding close
close-quarantined g = elim (GateState-cases g.state) [
  | inl e ↦ rw (e, close) (omega arith)
  | inr (inl (a, e)) ↦ rw (e, close) (ground arith)
  | inr (inr (a, e)) ↦ rw (e, close) (omega arith)
]

GateStep-quarantined :
    {g h : Gate}
    → GateStep g h
    → g.quarantined_through_generation ≤ h.quarantined_through_generation
unfolding quarantine mark_indeterminate activate_if activate
GateStep-quarantined {g} closes = close-quarantined g
GateStep-quarantined {g} (quarantines b) = ground arith
GateStep-quarantined {g} (marks b) = ground arith
GateStep-quarantined {g} (activates b answer) = ground arith

GateReach-IsOpen : {g h : Gate} → GateReach g h → IsOpen g → IsOpen h
GateReach-IsOpen here o = o
GateReach-IsOpen (next r st) o = GateStep-IsOpen st (GateReach-IsOpen r o)

pub GateReach-quarantined :
    {g h : Gate}
    → GateReach g h
    → g.quarantined_through_generation ≤ h.quarantined_through_generation
GateReach-quarantined here = omega arith
GateReach-quarantined (next r st) = omega (arith, GateReach-quarantined r, GateStep-quarantined st)

permit-above :
    (g : Gate) (a : ProtocolAuthority)
    → IsOpen g
    → permit g ≡ some a
    → (g.state ≡ active a) × (g.quarantined_through_generation < generation a)
unfolding permit
permit-above g a o h = elim (GateState-cases g.state) [
  | inl e ↦ absurd (ground arith)
  | inr (inr (b, e)) ↦ absurd (ground arith)
  | inr (inl (b, e)) ↦
      let same : b ≡ a = ground arith in
      let above : g.quarantined_through_generation < generation b = rw e at o in
      (rw e (ap active same), rw (← same) above)
]

version_eq-eq : (v w : ProtocolVersion) → version_eq v w ≡ true → v ≡ w
version_eq-eq v1 v1 h = refl
version_eq-eq v2 v2 h = refl
version_eq-eq v1 v2 h = absurd (cc)
version_eq-eq v2 v1 h = absurd (cc)

version_eq_self : (v : ProtocolVersion) → version_eq v v ≡ true
version_eq_self v1 = refl
version_eq_self v2 = refl

protocol_eq_self : (a : ProtocolAuthority) → protocol_eq a a ≡ true
unfolding protocol_eq authority_eq
protocol_eq_self a = ground (arith, version_eq_self a.version)

pub protocol_eq-eq : (a b : ProtocolAuthority) → protocol_eq a b ≡ true → a ≡ b
unfolding protocol_eq authority_eq
protocol_eq-eq a b h =
    let version : a.version ≡ b.version = version_eq-eq a.version b.version (ground arith) in
    let identity : a.credentials.identity ≡ b.credentials.identity = ground arith in
    let generation_ : a.credentials.generation ≡ b.credentials.generation = ground arith in cc

matches-active : (g : Gate) (a : ProtocolAuthority) → matches a g ≡ true → permit g ≡ some a
unfolding matches permit
matches-active g a h = elim (GateState-cases g.state) [
  | inl e ↦ absurd (ground arith)
  | inr (inr (b, e)) ↦ absurd (ground arith)
  | inr (inl (b, e)) ↦ let same : b ≡ a = protocol_eq-eq b a (ground arith) in rw e (ap some same)
]

active-matches :
    (g : Gate) (a : ProtocolAuthority) → IsOpen g → permit g ≡ some a → matches a g ≡ true
unfolding matches
active-matches g a o h =
    let (e, above) = permit-above g a o h in rw e (ground (arith, protocol_eq_self a))

-- In every history of a gate, the gate matches exactly the authority that it permits.
pub matches-permit :
    {g : Gate} (a : ProtocolAuthority)
    → GateReach default_gate g
    → (matches a g ≡ true) ↔ (permit g ≡ some a)
unfolding default_gate
matches-permit {g} a r = (matches-active g a, active-matches g a (GateReach-IsOpen r tt))

-- An authority whose generation has been quarantined in a history is never permitted and never matches
-- again.
pub quarantined_forever :
    {g t : Gate} (a : ProtocolAuthority)
    → GateReach default_gate g
    → generation a ≤ g.quarantined_through_generation
    → GateReach g t
    → (matches a t ≡ false) × (permit t ≢ some a)
unfolding default_gate matches
quarantined_forever {g} {t} a r below s =
    let open_ = GateReach-IsOpen s (GateReach-IsOpen r tt) in
    let grown = GateReach-quarantined s in
    (ground arith, λ e. ground (arith, permit-above t a open_ e))

-- What each withdrawal of an authority does: the close of a gate that permits it, the quarantine and
-- the mark of an unknown outcome quarantine its generation, and an unknown outcome stays through closes
-- and quarantines.
pub withdrawals_quarantine :
    (g : Gate) (a b : ProtocolAuthority)
    → (permit g ≡ some a → generation a ≤ (close g).quarantined_through_generation)
      × (generation a ≤ (quarantine a g).quarantined_through_generation)
      × (generation a ≤ (mark_indeterminate a g).quarantined_through_generation)
      × ((quarantine b (close (mark_indeterminate a g))).state ≡ indeterminate a)
      × (permit (close g) ≡ none)
      × (permit (quarantine a g) ≡ none)
unfolding close quarantine mark_indeterminate permit
withdrawals_quarantine g a b = elim (GateState-cases g.state) [
  | inl e ↦ (λ h. ground arith, ground arith, ground arith, refl, rw e refl, ground arith)
  | inr (inl (c, e)) ↦
      (λ h. ground arith, ground arith, ground arith, refl, rw e refl, ground arith)
  | inr (inr (c, e)) ↦
      (λ h. ground arith, ground arith, ground arith, refl, rw e refl, ground arith)
]
