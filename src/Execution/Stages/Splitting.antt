-- ===== src/Execution/Stages/Splitting.antt =====
-- What `split` makes of a plan, node by node.
use minispark.Common.{
  ℕ, ◌+◌, arith, Bool, true, false, List, [], ◌∷◌, ◌++◌, length, length-append, ◌≡◌, refl, sym, ap,
  ◌∙◌, subst, Bool-cases, inl, inr, Result, ok, ◌>>=◌, String, Option, ◌&&◌, append_assoc, and_left,
  and_right,
}
use minispark.Core.Value.{Value}
use minispark.Expressions.Syntax.{Expression}
use minispark.Core.Schema.{Schema}
use minispark.Physical.Plan.{
  PhysicalPlan, exchange_exec, shuffle_write_exec, hash_join_exec, schema_of,
}
use minispark.Execution.Stages.{Stage, Split, with_child, rebuild, close_stage, join_sides}
use minispark.Execution.Stages.Order.{
  exchanges, ReadsBelow, IsNumbered, ReadsBelow-mono, IsNumbered-append,
}

-- What `split p ss` owes.
pub record IsSplit (p : PhysicalPlan) (ss : List Stage) (r : Split) : Type 0 where
  pub closed : List Stage
  pub appended : r.stages ≡ ss ++ closed
  pub counted : length closed ≡ exchanges p
  pub numbered : IsNumbered (length ss) closed
  pub reads : ReadsBelow (length r.stages) r.fragment
  pub schemas : schema_of r.fragment ≡ schema_of p
  pub original : r.is_original ≡ true → r.fragment ≡ p

abbrev pub Splits : PhysicalPlan → List Stage → Result Split → Type 0
Splits p ss m = (r : Split) × (m ≡ ok r) × IsSplit p ss r

pub Splits-bind :
    (c p : PhysicalPlan) (ss : List Stage) (m : Result Split) (f : Split → Result Split)
    → Splits c ss m
    → ((r : Split) → IsSplit c ss r → Splits p ss (f r))
    → Splits p ss (m >>= f)
Splits-bind c p ss m f (r, e, h) k = subst (λ x. Splits p ss (x >>= f)) (sym e) (k r h)

-- A node `w c` of one child.
pub rebuild-Splits :
    (w : PhysicalPlan → PhysicalPlan) (c : PhysicalPlan) (ss : List Stage)
    → ((c' : PhysicalPlan) → with_child (w c) c' ≡ ok (w c'))
    → ((n : ℕ) (c' : PhysicalPlan) → ReadsBelow n c' → ReadsBelow n (w c'))
    → ((c' : PhysicalPlan) → schema_of c' ≡ schema_of c → schema_of (w c') ≡ schema_of (w c))
    → exchanges (w c) ≡ exchanges c
    → (r : Split) → IsSplit c ss r
    → Splits (w c) ss (rebuild (w c) r)
unfolding rebuild
rebuild-Splits w c ss child reads schemas count r h = elim (Bool-cases r.is_original) [
  | inl t ↦ (
    kept,
    rw t refl,
    record {
      closed = h.closed;
      appended = h.appended;
      counted = h.counted ∙ sym count;
      numbered = h.numbered;
      reads = reads _ c (subst (λ x. ReadsBelow (length r.stages) x) (h.original t) h.reads);
      schemas = refl;
      original = λ _. refl;
    },
  )
  | inr f ↦ (
    rebuilt,
    rw (f, child r.fragment) refl,
    record {
      closed = h.closed;
      appended = h.appended;
      counted = h.counted ∙ sym count;
      numbered = h.numbered;
      reads = reads _ r.fragment h.reads;
      schemas = schemas r.fragment h.schemas;
      original = λ e. cc;
    },
  )
]
  where
    kept : Split
    kept = record {
      fragment = w c;
      partitions = r.partitions;
      is_original = true;
      stages = r.stages;
    }

    rebuilt : Split
    rebuilt = record {
      fragment = w r.fragment;
      partitions = r.partitions;
      is_original = false;
      stages = r.stages;
    }

pub close_stage-Splits :
    (c : PhysicalPlan) (n : ℕ) (es : List Expression) (b : Bool) (rs : Option (List Value))
    (ss : List Stage) (r : Split)
    → IsSplit c ss r
    → Splits (exchange_exec c n es b rs) ss (close_stage (exchange_exec c n es b rs) r)
unfolding close_stage schema_of
close_stage-Splits c n es b rs ss r h = (
  _,
  refl,
  record {
    closed = h.closed ++ (written ∷ []);
    appended = ap (λ x. x ++ (written ∷ [])) h.appended ∙ append_assoc ss h.closed (written ∷ []);
    counted = omega (arith, length-append h.closed (written ∷ []), h.counted);
    numbered =
        IsNumbered-append (length ss) h.closed (written ∷ []) h.numbered
          (subst (λ k. IsNumbered k (written ∷ [])) count (refl, h.reads, tt));
    reads = omega (arith, length-append r.stages (written ∷ []));
    schemas = refl;
    original = λ e. cc;
  },
)
  where
    written : Stage
    written = record {
      stage_id = length r.stages;
      plan = shuffle_write_exec r.fragment n es rs;
      num_partitions = r.partitions;
    }

    count : length r.stages ≡ length ss + length h.closed
    count = ap length h.appended ∙ length-append ss h.closed

pub join_sides-Splits :
    (l r : PhysicalPlan) (lk rk : List Expression) (on : List String) (s : Schema) (ss : List Stage)
    (a b : Split)
    → IsSplit l ss a
    → IsSplit r a.stages b
    → Splits (hash_join_exec l r lk rk on s) ss (join_sides (hash_join_exec l r lk rk on s) a b)
unfolding join_sides schema_of
join_sides-Splits l r lk rk on s ss a b h k = elim (Bool-cases (a.is_original && b.is_original)) [
  | inl t ↦ (
    kept,
    rw t refl,
    made kept refl
        (
          subst (λ x. ReadsBelow (length b.stages) x) (h.original (and_left _ _ t)) left,
          subst (λ x. ReadsBelow (length b.stages) x) (k.original (and_right _ _ t)) k.reads,
        )
        refl (λ _. refl),
  )
  | inr f ↦ (rebuilt, rw f refl, made rebuilt refl (left, k.reads) refl (λ e. cc))
]
  where
    kept : Split
    kept = record {
      fragment = hash_join_exec l r lk rk on s;
      partitions = a.partitions;
      is_original = true;
      stages = b.stages;
    }

    rebuilt : Split
    rebuilt = record {
      fragment = hash_join_exec a.fragment b.fragment lk rk on s;
      partitions = a.partitions;
      is_original = false;
      stages = b.stages;
    }

    count : length b.stages ≡ length a.stages + length k.closed
    count = ap length k.appended ∙ length-append a.stages k.closed

    count_left : length a.stages ≡ length ss + length h.closed
    count_left = ap length h.appended ∙ length-append ss h.closed

    left : ReadsBelow (length b.stages) a.fragment
    left =
        ReadsBelow-mono (length a.stages) (length b.stages) a.fragment (omega (arith, count))
          h.reads

    made :
        (x : Split)
        → x.stages ≡ b.stages
        → ReadsBelow (length b.stages) x.fragment
        → schema_of x.fragment ≡ s
        → (x.is_original ≡ true → x.fragment ≡ hash_join_exec l r lk rk on s)
        → IsSplit (hash_join_exec l r lk rk on s) ss x
    made x e reads schemas original = record {
      closed = h.closed ++ k.closed;
      appended =
          e
          ∙ (k.appended ∙ (ap (λ y. y ++ k.closed) h.appended ∙ append_assoc ss h.closed k.closed));
      counted = omega (arith, length-append h.closed k.closed, h.counted, k.counted);
      numbered =
          IsNumbered-append (length ss) h.closed k.closed h.numbered
            (subst (λ n. IsNumbered n k.closed) count_left k.numbered);
      reads = rw e reads;
      schemas = schemas;
      original = original;
    }
