-- ===== src/Memory/Changes.antt =====
-- The invariant when a process leaves or its threads change.
use so_tp_2024_2c_the_last_o.Prelude.{
  ℕ, ◌≡◌, ◌≢◌, refl, sym, ap, ◌∙◌, inl, inr, Option, none, some, List, arith, set,
}
use so_tp_2024_2c_the_last_o.Memory.Types.{Partition, MemoryProcess}
use so_tp_2024_2c_the_last_o.Memory.Processes.{lookup_process}
use so_tp_2024_2c_the_last_o.Memory.Tenants.{tenant, Leaves}
use so_tp_2024_2c_the_last_o.Memory.Registry.{lookup_process-set}
use so_tp_2024_2c_the_last_o.Memory.Invariant.{Housing, same_or_other, stays-Housed}

-- The entries after one of them was replaced.
lookup_process-other :
    (ps : List (Option MemoryProcess)) (i j : ℕ) (v : Option MemoryProcess) (q : MemoryProcess)
    → lookup_process j ps ≡ some q
    → i ≢ j
    → lookup_process i (set ps j v) ≡ lookup_process i ps
lookup_process-other ps i j v q e n = ground (arith, lookup_process-set ps i j v q e, n)

pub lookup_process-here :
    (ps : List (Option MemoryProcess)) (i j : ℕ) (v : Option MemoryProcess) (q : MemoryProcess)
    → lookup_process j ps ≡ some q
    → i ≡ j
    → lookup_process i (set ps j v) ≡ v
lookup_process-here ps i j v q e same = ground (arith, lookup_process-set ps i j v q e, same)

-- A process leaves, and so does the tenant of its partition.
pub Leaves-Housing :
    (pid : ℕ) (q : MemoryProcess) (t t' : List Partition) (ps : List (Option MemoryProcess))
    → lookup_process pid ps ≡ some q
    → Leaves q.partition t t'
    → Housing t ps
    → Housing t' (set ps pid none)
Leaves-Housing pid q t t' ps e l h = record {
  housed = λ i r f. elim (same_or_other i pid) [
    | inl same ↦ absurd (gone i r same f)
    | inr other ↦
        let old = before i r other f in
        stays-Housed t t' r
          (l.others r.partition (λ k. other (h.exclusive i pid r q old e (sym k))))
          (h.housed i r old)
  ];
  exclusive = λ i j r s f g same.
      h.exclusive i j r s (before i r (alive_apart i r f) f) (before j s (alive_apart j s g) g)
        same;
  no_leak = λ b p f.
      let apart : q.partition ≢ b =
        λ k. absurd (ground (arith, sym l.here ∙ ap (λ x. tenant x t') k ∙ f)) in
      let o = h.no_leak b p (sym (l.others b apart) ∙ f) in
      record {
        index = o.index;
        process = o.process;
        alive =
            lookup_process-other ps o.index pid none q e (λ k. apart (
              ap (λ x. x.partition)
                (one_entry (sym e ∙ ap (λ x. lookup_process x ps) (sym k) ∙ o.alive))
              ∙ o.owns))
            ∙ o.alive;
        owns = o.owns;
      };
}
  where
    one_entry : {r s : MemoryProcess} → some r ≡ some s → r ≡ s
    one_entry k = ground (arith, k)

    gone : (i : ℕ) (r : MemoryProcess) → i ≡ pid → lookup_process i (set ps pid none) ≢ some r
    gone i r same f = absurd (ground (arith, sym (lookup_process-here ps i pid none q e same) ∙ f))

    alive_apart :
        (i : ℕ) (r : MemoryProcess) → lookup_process i (set ps pid none) ≡ some r → i ≢ pid
    alive_apart i r f same = gone i r same f

    before :
        (i : ℕ) (r : MemoryProcess)
        → i ≢ pid
        → lookup_process i (set ps pid none) ≡ some r
        → lookup_process i ps ≡ some r
    before i r other f = sym (lookup_process-other ps i pid none q e other) ∙ f

-- A process whose threads changed.
pub Threads-Housing :
    (pid : ℕ) (q q' : MemoryProcess) (t : List Partition) (ps : List (Option MemoryProcess))
    → lookup_process pid ps ≡ some q
    → q'.pid ≡ q.pid
    → q'.size ≡ q.size
    → q'.partition ≡ q.partition
    → Housing t ps
    → Housing t (set ps pid (some q'))
Threads-Housing pid q q' t ps e same_pid same_size same_home h = record {
  housed = λ i r f.
      let (o, old, rp, rs, rh) = before i r f in
      let k = h.housed i o old in
      record {
        home = k.home;
        lives = ap (λ x. tenant x t) rh ∙ k.lives;
        owner = k.owner ∙ sym rp;
        room = omega (arith, k.room, rs);
      };
  exclusive = λ i j r s f g same.
      let (o, old, rp, rs, rh) = before i r f in
      let (u, old', sp, ss, sh) = before j s g in h.exclusive i j o u old old' (sym rh ∙ same ∙ sh);
  no_leak = λ b p f.
      let o = h.no_leak b p f in
      elim (same_or_other o.index pid) [
        | inl same ↦ record {
          index = o.index;
          process = q';
          alive = lookup_process-here ps o.index pid (some q') q e same;
          owns =
              same_home
              ∙ ap (λ x. x.partition)
                  (one_entry (sym e ∙ ap (λ x. lookup_process x ps) (sym same) ∙ o.alive))
              ∙ o.owns;
        }
        | inr other ↦ record {
          index = o.index;
          process = o.process;
          alive = lookup_process-other ps o.index pid (some q') q e other ∙ o.alive;
          owns = o.owns;
        }
      ];
}
  where
    one_entry : {r s : MemoryProcess} → some r ≡ some s → r ≡ s
    one_entry k = ground (arith, k)

    before :
        (i : ℕ) (r : MemoryProcess)
        → lookup_process i (set ps pid (some q')) ≡ some r
        → (o : MemoryProcess) × (lookup_process i ps ≡ some o)
          × (r.pid ≡ o.pid)
          × (r.size ≡ o.size)
          × (r.partition ≡ o.partition)
    before i r f = elim (same_or_other i pid) [
      | inl same ↦
          let new : q' ≡ r =
            one_entry (sym (lookup_process-here ps i pid (some q') q e same) ∙ f) in
          (
            q,
            ap (λ x. lookup_process x ps) same ∙ e,
            ap (λ x. x.pid) (sym new) ∙ same_pid,
            ap (λ x. x.size) (sym new) ∙ same_size,
            ap (λ x. x.partition) (sym new) ∙ same_home,
          )
      | inr other ↦
          (r, sym (lookup_process-other ps i pid (some q') q e other) ∙ f, refl, refl, refl)
    ]
