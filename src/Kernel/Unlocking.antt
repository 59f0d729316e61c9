-- ===== src/Kernel/Unlocking.antt =====
-- That mutex_unlock and mutex_create of src/kernel/src/syscalls.c keep the account of who holds a
-- mutex.
use mathlib.Core.Path.{subst}
use so_tp_2024_2c_the_last_o.Prelude.{
  ℕ, zero, suc, ◌≡◌, ◌≢◌, refl, sym, ap, ◌∙◌, inl, inr, Bool, true, false, Option, none, some, List,
  [], ◌∷◌, arith, length, ◌==◌, Bool-cases, Option-cases,
}
use so_tp_2024_2c_the_last_o.Prelude.Int.{ℤ, pos, negsuc}
use so_tp_2024_2c_the_last_o.Prelude.Text.{Text}
use so_tp_2024_2c_the_last_o.Kernel.Types.{Resource, Kernel, ◌>>=◌, put_resource, set_assigned}
use so_tp_2024_2c_the_last_o.Kernel.Transitions.{insert_state_ready}
use so_tp_2024_2c_the_last_o.Kernel.Syscalls.{
  Returned, goes_on, increment, redispatch, resource_create, mutex_create_kernel_syscall, create_in,
  wake_holder, released, going_on, unlock_with, unlock_assigned, unlock_in,
  mutex_unlock_kernel_syscall,
}
use so_tp_2024_2c_the_last_o.Kernel.Ownership.{
  minus, Unassigned, AllOf-view, Held, OwnedAs, Owned, Change, Same-Owned, set_assigned-Change,
  set_assigned_self, set_assigned_other,
}
use so_tp_2024_2c_the_last_o.Kernel.Mutexes.{
  put-Owned, give-Owned, Change-none, answer_or, invalid_resource-Owned, redispatch-Owned,
  insert_state_ready-Same,
}

-- What an unlock leaves, when the waiter that it wakes reaches its queue.
waked-Owned :
    (w : ℕ) (name : Text) (k k' : Kernel) (returned : Returned)
    → Owned (set_assigned w name true k)
    → going_on (wake_holder (some w) name k) ≡ some (returned, k')
    → Owned k'
waked-Owned w name k k' returned o e =
    elim (Option-cases (insert_state_ready w (set_assigned w name true k))) [
      | inl f ↦
          let g : none ≡ some (returned, k') = sym (ap going_on f) ∙ e in absurd (ground (arith, g))
      | inr (k1, f) ↦
          let g : some (goes_on, k1) ≡ some (returned, k') = sym (ap going_on f) ∙ e in
          subst Owned (ap (answer_or k) g) (
            Same-Owned (set_assigned w name true k) k1
              (insert_state_ready-Same w (set_assigned w name true k) k1 f) o)
    ]

pub increment-negsuc : (n : ℕ) → increment (negsuc n) ≡ minus n
increment-negsuc zero = refl
increment-negsuc (suc n) = refl

pub released-waiting :
    (n w : ℕ) (ws : List ℕ)
    → released (record { instances = minus n; list_blocked = w ∷ ws })
      ≡ (some w, record { instances = minus n; list_blocked = ws })
released-waiting zero w ws = refl
released-waiting (suc n) w ws = refl

module _ (t : ℕ) (name : Text) (k k' : Kernel) (returned : Returned) (o : Owned k) where
  abbrev pid : ℕ
  pid = (k.tcbs t).pid

  -- The state after the holder gave its mutex up.
  abbrev given_up : Kernel
  given_up = redispatch true (set_assigned t name false k)

  given_up-Change : Change pid name k given_up
  given_up-Change =
      let c = set_assigned-Change t name false k in
      record {
        pids = c.pids;
        others_assigned = c.others_assigned;
        others_resources = c.others_resources;
      }

  -- Nobody has it then.
  given_up-Unassigned :
      (r : Resource)
      → Held k pid name r
      → (k.tcbs t).assigned name ≡ true
      → Unassigned given_up pid name
  given_up-Unassigned r h a u q = elim (Bool-cases (t == u)) [
    | inl e ↦
        subst (λ v. (given_up.tcbs v).assigned name ≡ false) (ground (arith, e))
          (set_assigned_self t name false k)
    | inr e ↦
        let other : t ≢ u = λ d. absurd (ground (arith, e, d)) in
        let before : (k.tcbs u).pid ≡ pid = sym (given_up-Change.pids u) ∙ q in
        set_assigned_other t name false k u other ∙ elim (Bool-cases ((k.tcbs u).assigned name)) [
          | inr f ↦ f
          | inl f ↦ absurd (other (h.only t refl a ∙ sym (h.only u before f)))
        ]
  ]

  released-Owned :
      (instances : ℤ) (blocked : List ℕ)
      → Held k pid name (record { instances = instances; list_blocked = blocked })
      → (k.tcbs t).assigned name ≡ true
      → unlock_with t name given_up
          (released (record { instances = increment instances; list_blocked = blocked }))
        ≡ some (returned, k')
      → Owned k'
  released-Owned instances [] h a e =
      let r : Resource = record { instances = pos 1; list_blocked = [] } in
      let g : some (goes_on, put_resource (given_up.tcbs t).pid name (some r) given_up)
          ≡ some (returned, k') =
        subst
          (λ i.
            unlock_with t name given_up
              (released (record { instances = increment i; list_blocked = [] }))
            ≡ some (returned, k'))
          h.waiting e in
      subst Owned (ap (answer_or k) g) (
        subst (λ q. Owned (put_resource q name (some r) given_up)) (sym (given_up-Change.pids t))
          (put-Owned pid name k given_up r given_up-Change o (
            inl (record {
              one = refl;
              nobody = refl;
              unassigned =
                  given_up-Unassigned (record { instances = instances; list_blocked = [] }) h a;
            }))))
  released-Owned instances (w ∷ ws) h a e =
      let n : ℕ = length ws in
      let r : Resource = record { instances = minus n; list_blocked = ws } in
      let g : going_on
            (wake_holder (some w) name (put_resource (given_up.tcbs t).pid name (some r) given_up))
          ≡ some (returned, k') =
        ap (unlock_with t name given_up) (
          sym (
            ap (λ i. released (record { instances = increment i; list_blocked = w ∷ ws })) h.waiting
            ∙ ap (λ i. released (record { instances = i; list_blocked = w ∷ ws }))
                (increment-negsuc n)
            ∙ released-waiting n w ws))
        ∙ e in
      waked-Owned w name (put_resource (given_up.tcbs t).pid name (some r) given_up) k' returned
        (subst (λ q. Owned (set_assigned w name true (put_resource q name (some r) given_up)))
          (sym (given_up-Change.pids t))
          (give-Owned pid name k given_up r w given_up-Change o
            (given_up-Change.pids w ∙ h.waiters.0)
            (λ u q d.
              given_up-Unassigned (record { instances = instances; list_blocked = w ∷ ws }) h a u q)
            refl (AllOf-view k given_up pid ws given_up-Change.pids h.waiters.1)))
        g

  unlock_assigned-Owned :
      (r : Resource)
      → OwnedAs k pid name (some r)
      → (b : Bool) → (k.tcbs t).assigned name ≡ b
      → unlock_assigned t name r k b ≡ some (returned, k')
      → Owned k'
  unlock_assigned-Owned r own false a e = invalid_resource-Owned t k k' returned o e
  unlock_assigned-Owned r (inl f) true a e = absurd (cc (a, f.unassigned t refl))
  unlock_assigned-Owned r (inr h) true a e = released-Owned r.instances r.list_blocked h a e

  unlock_in-Owned :
      (r : Option Resource)
      → OwnedAs k pid name r
      → unlock_in t name k r ≡ some (returned, k')
      → Owned k'
  unlock_in-Owned none own e = invalid_resource-Owned t k k' returned o e
  unlock_in-Owned (some r) own e = unlock_assigned-Owned r own ((k.tcbs t).assigned name) refl e

  create_in-Owned :
      (r : Option Resource)
      → OwnedAs k pid name r
      → create_in t name k r ≡ some (returned, k')
      → Owned k'
  create_in-Owned (some r) own e = invalid_resource-Owned t k k' returned o e
  create_in-Owned none own e =
      let r : Resource = resource_create (pos 1) in
      let made : Kernel = put_resource pid name (some r) k in
      subst Owned (ap (answer_or k) e) (
        redispatch-Owned true made (
          put-Owned pid name k k r (Change-none pid name k) o
            (inl (record { one = refl; nobody = refl; unassigned = own }))))

pub mutex_unlock-Owned :
    (name : Text) (k k' : Kernel) (returned : Returned)
    → Owned k
    → mutex_unlock_kernel_syscall name k ≡ some (returned, k')
    → Owned k'
unfolding mutex_unlock_kernel_syscall
mutex_unlock-Owned name k k' returned o = by_exec k.tcb_exec
  where
    by_exec :
        (exec : Option ℕ)
        → (exec >>= λ t. unlock_in t name k (k.resources (k.tcbs t).pid name)) ≡ some (returned, k')
        → Owned k'
    by_exec none e = absurd (ground (arith, e))
    by_exec (some t) e =
        unlock_in-Owned t name k k' returned o (k.resources (k.tcbs t).pid name)
          (o (k.tcbs t).pid name) e

pub mutex_create-Owned :
    (name : Text) (k k' : Kernel) (returned : Returned)
    → Owned k
    → mutex_create_kernel_syscall name k ≡ some (returned, k')
    → Owned k'
unfolding mutex_create_kernel_syscall
mutex_create-Owned name k k' returned o = by_exec k.tcb_exec
  where
    by_exec :
        (exec : Option ℕ)
        → (exec >>= λ t. create_in t name k (k.resources (k.tcbs t).pid name)) ≡ some (returned, k')
        → Owned k'
    by_exec none e = absurd (ground (arith, e))
    by_exec (some t) e =
        create_in-Owned t name k k' returned o (k.resources (k.tcbs t).pid name)
          (o (k.tcbs t).pid name) e
