-- ===== src/Bar/Titles/Live.antt =====
-- No event makes the daemon read a window's structure after it was freed.
use mathlib.Core.Path.{subst}
use mathlib.Core.Option.{some-injective}
use syn_os.Common.{
  ℕ, ◌≤◌, ◌≡◌, refl, sym, ◌∙◌, ap, arith, Bool, true, false, Option, none, some, List, [], ◌∷◌,
  ◌++◌, Bytes, length, length-append, leb, ◌==◌, if◌then◌else◌, Bool-cases, inl, inr,
}
use syn_os.Bar.Titles.{
  Toplevel, Bar, toplevel_find, toplevel_remove, at_addr, change, broadcast_title,
  set_current_title, same_title, manager_toplevel, new_title, set_title, handle_title, new_state,
  set_state, handle_state, is_active, show_done, handle_done, closed_if, close_read, close_active,
  handle_closed, watch_title, Step, opened, titled, stated, done, closed, watched, Reach, started,
  stepped,
}
use syn_os.Bar.Titles.Watchers.{length-broadcast}

unfoldable pub has_addr : ℕ → List Toplevel → Bool
has_addr addr [] = false
has_addr addr (t ∷ ts) =
    let later : Bool = has_addr addr ts in if t.addr == addr then true else later

-- The active window's structure, if there is one, has not been freed.
abbrev pub Live : Option ℕ → List Toplevel → Type 0
Live none ts = Unit
Live (some addr) ts = has_addr addr ts ≡ true

pub record BarValid (b : Bar) : Type 0 where
  pub live : Live b.active b.toplevels
  pub watchers : length b.watchers ≤ 8

found-live :
    (handle : ℕ) (ts : List Toplevel) (t : Toplevel)
    → toplevel_find handle ts ≡ some t
    → has_addr t.addr ts ≡ true
unfolding toplevel_find has_addr
found-live handle [] t e = absurd (ground (arith, e))
found-live handle (s ∷ ts) t e = ground (arith, e, found-live handle ts t)

at_addr-live :
    (addr : ℕ) (ts : List Toplevel)
    → has_addr addr ts ≡ true
    → (t : Toplevel) × (at_addr addr ts ≡ some t)
unfolding at_addr has_addr
at_addr-live addr [] h = absurd (ground (arith, h))
at_addr-live addr (s ∷ ts) h = elim (Bool-cases (s.addr == addr)) [
  | inl here ↦ (s, ap (λ b. if b then some s else at_addr addr ts) here)
  | inr there ↦
      let later : (t : Toplevel) × (at_addr addr ts ≡ some t) =
        at_addr-live addr ts (sym (ap (λ b. if b then true else has_addr addr ts) there) ∙ h) in
      (later.0, ap (λ b. if b then some s else at_addr addr ts) there ∙ later.1)
]

live-change :
    (addr a : ℕ) (f : Toplevel → Toplevel) (ts : List Toplevel)
    → ((t : Toplevel) → (f t).addr ≡ t.addr)
    → has_addr addr (change a f ts) ≡ has_addr addr ts
unfolding change has_addr
live-change addr a f [] h = refl
live-change addr a f (t ∷ ts) h = ground (arith, h t, live-change addr a f ts h)

-- A window that is not the active one is removed.
live-remove :
    (addr handle : ℕ) (ts : List Toplevel) (t : Toplevel)
    → at_addr addr ts ≡ some t
    → (t.handle == handle) ≡ false
    → has_addr addr (toplevel_remove handle ts) ≡ true
unfolding at_addr has_addr toplevel_remove
live-remove addr handle [] t e h = absurd (ground (arith, e))
live-remove addr handle (s ∷ ts) t e h =
    ground (arith, e, h, live-remove addr handle ts t, at_addr-has addr ts t)
  where
    at_addr-has :
        (addr : ℕ) (ts : List Toplevel) (t : Toplevel)
        → at_addr addr ts ≡ some t
        → has_addr addr ts ≡ true
    at_addr-has addr [] t e = absurd (ground (arith, e))
    at_addr-has addr (s ∷ ts) t e = ground (arith, e, at_addr-has addr ts t)

-- A title that is shown changes no window, and leaves no more watchers.
BarValid-title :
    (takes : ℕ → Bool) (title : Bytes) (b : Bar)
    → BarValid b
    → BarValid (set_current_title takes title b)
unfolding set_current_title
BarValid-title takes title b v = cases (same_title b.current title)
  where
    cases :
        (t : Bool)
        → BarValid (
            if t
            then b
            else record b { current = some title; watchers = broadcast_title takes b.watchers })
    cases true = v
    cases false = record {
      live = v.live;
      watchers = omega (arith, length-broadcast takes b.watchers, v.watchers);
    }

Live-change :
    (active : Option ℕ) (a : ℕ) (f : Toplevel → Toplevel) (ts : List Toplevel)
    → ((t : Toplevel) → (f t).addr ≡ t.addr)
    → Live active ts
    → Live active (change a f ts)
Live-change none a f ts h live = tt
Live-change (some addr) a f ts h live = live-change addr a f ts h ∙ live

Live-open :
    (active : Option ℕ) (t : Toplevel) (ts : List Toplevel) → Live active ts → Live active (t ∷ ts)
unfolding has_addr
Live-open none t ts live = tt
Live-open (some addr) t ts live = ground (arith, live)

BarValid-set_title :
    (title : Bytes) (b : Bar) (o : Option Toplevel) → BarValid b → BarValid (set_title title b o)
BarValid-set_title title b none v = v
BarValid-set_title title b (some t) v = record {
  live = Live-change b.active t.addr (new_title title) b.toplevels (λ s. refl) v.live;
  watchers = v.watchers;
}

BarValid-set_state :
    (activated : Bool) (b : Bar) (o : Option Toplevel)
    → ((t : Toplevel) → o ≡ some t → has_addr t.addr b.toplevels ≡ true)
    → BarValid b
    → BarValid (set_state activated b o)
BarValid-set_state activated b none there v = v
BarValid-set_state true b (some t) there v = record {
  live = Live-change (some t.addr) t.addr (new_state true) b.toplevels (λ s. refl) (there t refl);
  watchers = v.watchers;
}
BarValid-set_state false b (some t) there v = record {
  live = Live-change b.active t.addr (new_state false) b.toplevels (λ s. refl) v.live;
  watchers = v.watchers;
}

BarValid-done :
    (takes : ℕ → Bool) (b : Bar) (o : Option Toplevel) → BarValid b → BarValid (show_done takes b o)
BarValid-done takes b none v = v
BarValid-done takes b (some t) v = cases (is_active b.active t)
  where
    cases : (s : Bool) → BarValid (if s then set_current_title takes t.title b else b)
    cases true = BarValid-title takes t.title b v
    cases false = v

-- The closing of a window: what it leaves, where the active window's structure is there.
Closes : Option Bar → Type 0
Closes o = (c : Bar) × (o ≡ some c) × BarValid c

close-safe :
    (takes : ℕ → Bool) (handle : ℕ) (b : Bar) → BarValid b → Closes (handle_closed takes handle b)
unfolding handle_closed Closes
close-safe takes handle b v = at b.active v.live refl
  where
    shown : BarValid (closed_if takes handle b true)
    shown =
        BarValid-title takes []
          (record b { toplevels = toplevel_remove handle b.toplevels; active = none })
          (record { live = tt; watchers = v.watchers })

    kept :
        (active : Option ℕ)
        → b.active ≡ active
        → Live active (toplevel_remove handle b.toplevels)
        → BarValid (closed_if takes handle b false)
    kept active e live = record {
      live = subst (λ a. Live a (toplevel_remove handle b.toplevels)) (sym e) live;
      watchers = v.watchers;
    }

    read :
        (addr : ℕ) (t : Toplevel) (same : Bool)
        → b.active ≡ some addr
        → at_addr addr b.toplevels ≡ some t
        → (t.handle == handle) ≡ same
        → BarValid (closed_if takes handle b same)
    read addr t true e there h = shown
    read addr t false e there h = kept (some addr) e (live-remove addr handle b.toplevels t there h)

    at :
        (active : Option ℕ)
        → Live active b.toplevels
        → b.active ≡ active
        → Closes (close_active takes handle b active)
    at none live e = (_, refl, kept none e tt)
    at (some addr) live e =
        let r : (t : Toplevel) × (at_addr addr b.toplevels ≡ some t) =
          at_addr-live addr b.toplevels live in
        (_, ap (close_read takes handle b) r.1, read addr r.0 (r.0.handle == handle) e r.1 refl)

BarValid-watch :
    (takes : ℕ → Bool) (fd : ℕ) (b : Bar) → BarValid b → BarValid (watch_title takes fd b)
unfolding watch_title
BarValid-watch takes fd b v = cases (leb 8 (length b.watchers)) (takes fd) refl
  where
    cases :
        (full ok : Bool)
        → leb 8 (length b.watchers) ≡ full
        → BarValid
            (if full then b else if ok then record b { watchers = b.watchers ++ (fd ∷ []) } else b)
    cases true ok e = v
    cases false false e = v
    cases false true e = record {
      live = v.live;
      watchers = ground (arith, e, length-append b.watchers (fd ∷ []));
    }

step-BarValid : {b c : Bar} → Step b c → BarValid b → BarValid c
unfolding manager_toplevel handle_title handle_state handle_done Closes
step-BarValid (opened addr handle b) v = record {
  live = Live-open b.active _ b.toplevels v.live;
  watchers = v.watchers;
}
step-BarValid (titled handle title b) v =
    BarValid-set_title title b (toplevel_find handle b.toplevels) v
step-BarValid (stated handle activated b) v =
    BarValid-set_state activated b (toplevel_find handle b.toplevels)
      (found-live handle b.toplevels) v
step-BarValid (done takes handle b) v = BarValid-done takes b (toplevel_find handle b.toplevels) v
step-BarValid (closed takes handle b c e) v =
    let r : Closes (handle_closed takes handle b) = close-safe takes handle b v in
    subst BarValid (some-injective _ _ (sym r.1 ∙ e)) r.2
step-BarValid (watched takes fd b) v = BarValid-watch takes fd b v

reach-BarValid : {b : Bar} → Reach b → BarValid b
reach-BarValid started = record { live = tt; watchers = omega arith }
reach-BarValid (stepped r s) = step-BarValid s (reach-BarValid r)

-- After any events since the start, in any order, closing a window reads no freed memory: the active
-- window's structure is there whenever its handle is read. At most eight clients watch the title,
-- before and after.
pub closed_safe :
    (b : Bar) (takes : ℕ → Bool) (handle : ℕ)
    → Reach b
    → (c : Bar) × (handle_closed takes handle b ≡ some c)
      × (length b.watchers ≤ 8)
      × (length c.watchers ≤ 8)
unfolding Closes
closed_safe b takes handle r =
    let v : BarValid b = reach-BarValid r in
    let s : Closes (handle_closed takes handle b) = close-safe takes handle b v in
    (s.0, s.1, v.watchers, s.2.watchers)
