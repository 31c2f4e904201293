-- ===== src/Tests/Places.antt =====
-- What the calls of the in-memory cluster do to its secrets, OpNodes and networks.
use op_stack_operator.Prelude.{
  ℕ, ◌≡◌, refl, sym, ap, ◌∙◌, inl, inr, Option, none, some, List, [], ◌∷◌, ◌++◌, Bool-cases, true,
}
use op_stack_operator.Api.Meta.{NamespacedName, ObjectMeta, name_of}
use op_stack_operator.Api.Network.{OptimismNetwork}
use op_stack_operator.Api.Node.{OpNode}
use op_stack_operator.Resources.Objects.{Secret}
use op_stack_operator.Runtime.{Result, ok, err}
use op_stack_operator.Cluster.Server.{View, OldOr}
use op_stack_operator.Tests.World.{
  cluster, World, over, same_key, find, find_in, find_lem, same_key_lem, add_to,
}

abbrev found : {A : Type 0} → Result A → Option A
found (ok a) = some a
found (err e) = none

pub found-some : {A : Type 0} (r : Result A) (a : A) → found r ≡ some a → r ≡ ok a
found-some (ok b) a h = let e : b ≡ a = cc in ap ok e
found-some (err e) a h = cc

unfoldable pub view_of : World → View ℕ
view_of w = record {
  secrets = λ key. found (find_in (λ (s : Secret). s.meta) key w.secrets);
  nodes = λ key. found (find (λ (o : OpNode ℕ). o.meta) key (some w.node));
  networks = λ key. found (find (λ (n : OptimismNetwork ℕ). n.meta) key (some w.its_network));
}

-- One place for a custom resource.
module _ {A S : Type 0} (meta : A → ObjectMeta) (spec : A → S) where
  abbrev pub At : A → NamespacedName → Option A
  At a key = found (find meta key (some a))

  pub At-lem :
      (a b : A) (key : NamespacedName)
      → At a key ≡ some b
      → (a ≡ b) × (name_of (meta a) ≡ key) × (same_key key (meta a) ≡ true)
  At-lem a b key h =
      let (e, k) = find_lem meta key (some a) b (found-some _ b h) in
      let same : a ≡ b = cc in
      let k' : same_key key (meta a) ≡ true = rw same k in (same, same_key_lem key (meta a) k', k')

  -- A new object has the specification and the name of what is written.
  updated-lem :
      (a new : A) (key : NamespacedName)
      → At a key ≡ some new
      → (name_of (meta a) ≡ key) × (spec new ≡ spec a)
  updated-lem a new key h = let (e, n, _) = At-lem a new key h in (n, ap spec (sym e))

  -- Another status.
  status-lem :
      (old merged new : A) (key : NamespacedName)
      → meta merged ≡ meta old
      → spec merged ≡ spec old
      → At merged key ≡ some new
      → (At old key ≡ some old) × (spec new ≡ spec old)
  status-lem old merged new key m s h =
      let (e, _, k) = At-lem merged new key h in
      let k' : same_key key (meta old) ≡ true = rw (← m) k in (rw k' refl, ap spec (sym e) ∙ s)

pub over-same :
    {A B : Type 0} (f : World → B) (put : A → World → World) (r : Result A) (w : World)
    → ((a : A) (v : World) → f (put a v) ≡ f v)
    → f (over put r w).1 ≡ f w
over-same f put (ok a) w h = h a w
over-same f put (err e) w h = refl

pub node_read :
    (key : NamespacedName) (w v : World) (o : OpNode ℕ)
    → cluster.op_nodes.get key w ≡ (ok o, v)
    → ((view_of v).nodes key ≡ some o) × (name_of o.meta ≡ key)
unfolding view_of
node_read key w v o h =
    let e : find (λ (p : OpNode ℕ). p.meta) key (some w.node) ≡ ok o = ap (λ r. r.0) h in
    let same : w ≡ v = ap (λ r. r.1) h in
    let (there, k) = find_lem (λ (p : OpNode ℕ). p.meta) key (some w.node) o e in
    (
      ap (λ u. found (find (λ (p : OpNode ℕ). p.meta) key (some u.node))) (sym same) ∙ ap found e,
      same_key_lem key o.meta k,
    )

pub network_read :
    (key : NamespacedName) (w v : World) (n : OptimismNetwork ℕ)
    → cluster.networks.get key w ≡ (ok n, v)
    → ((view_of v).networks key ≡ some n) × (name_of n.meta ≡ key)
unfolding view_of
network_read key w v n h =
    let e : find (λ (p : OptimismNetwork ℕ). p.meta) key (some w.its_network) ≡ ok n =
      ap (λ r. r.0) h in
    let same : w ≡ v = ap (λ r. r.1) h in
    let (there, k) = find_lem (λ (p : OptimismNetwork ℕ). p.meta) key (some w.its_network) n e in
    (
      ap (λ u. found (find (λ (p : OptimismNetwork ℕ). p.meta) key (some u.its_network))) (sym same)
          ∙ ap found e,
      same_key_lem key n.meta k,
    )

pub node_updated :
    (o : OpNode ℕ) (r : Result (OpNode ℕ)) (w : World)
    → let after = view_of (over (λ (old : OpNode ℕ) v. record v { node = o }) r w).1 in
      OldOr
        (λ (p : OpNode ℕ). p.spec)
        (λ v. v.nodes)
        (view_of w)
        after
        (λ key σ. (name_of o.meta ≡ key) × (σ ≡ o.spec))
unfolding view_of
node_updated o (ok old) w key new h =
    inr (updated-lem (λ (p : OpNode ℕ). p.meta) (λ (p : OpNode ℕ). p.spec) o new key h)
node_updated o (err e) w key new h = inl (new, h, refl)

pub node_status_updated :
    (o : OpNode ℕ) (r : Result (OpNode ℕ)) (w : World)
    → ((old : OpNode ℕ) → r ≡ ok old → w.node ≡ old)
    → let after =
        view_of
          (over
            (λ (old : OpNode ℕ) v. record v { node = record old { status = o.status } })
            r
            w).1 in
      OldOr (λ (p : OpNode ℕ). p.spec) (λ v. v.nodes) (view_of w) after (λ key σ. ⊥)
unfolding view_of
node_status_updated o (ok old) w its key new h =
    let merged = record w.node { status = o.status } in
    let h' : found (find (λ (p : OpNode ℕ). p.meta) key (some merged)) ≡ some new =
      rw (its old refl) h in
    let (there, same) =
      status-lem (λ (p : OpNode ℕ). p.meta) (λ (p : OpNode ℕ). p.spec) w.node merged new key refl
        refl h' in
    inl (w.node, there, same)
node_status_updated o (err e) w its key new h = inl (new, h, refl)

pub network_updated :
    (n : OptimismNetwork ℕ) (r : Result (OptimismNetwork ℕ)) (w : World)
    → let after =
        view_of (over (λ (old : OptimismNetwork ℕ) v. record v { its_network = n }) r w).1 in
      OldOr
        (λ (p : OptimismNetwork ℕ). p.spec)
        (λ v. v.networks)
        (view_of w)
        after
        (λ key σ. (name_of n.meta ≡ key) × (σ ≡ n.spec))
unfolding view_of
network_updated n (ok old) w key new h = inr (
    updated-lem (λ (p : OptimismNetwork ℕ). p.meta) (λ (p : OptimismNetwork ℕ). p.spec) n new key h)
network_updated n (err e) w key new h = inl (new, h, refl)

pub network_status_updated :
    (n : OptimismNetwork ℕ) (r : Result (OptimismNetwork ℕ)) (w : World)
    → ((old : OptimismNetwork ℕ) → r ≡ ok old → w.its_network ≡ old)
    → let after =
        view_of
          (over
            (λ (old : OptimismNetwork ℕ) v. record v {
              its_network = record old { status = n.status };
            })
            r
            w).1 in
      OldOr (λ (p : OptimismNetwork ℕ). p.spec) (λ v. v.networks) (view_of w) after (λ key σ. ⊥)
unfolding view_of
network_status_updated n (ok old) w its key new h =
    let merged = record w.its_network { status = n.status } in
    let h' : found (find (λ (p : OptimismNetwork ℕ). p.meta) key (some merged)) ≡ some new =
      rw (its old refl) h in
    let (there, same) =
      status-lem (λ (p : OptimismNetwork ℕ). p.meta) (λ (p : OptimismNetwork ℕ). p.spec)
        w.its_network merged new key refl refl h' in
    inl (w.its_network, there, same)
network_status_updated n (err e) w its key new h = inl (new, h, refl)

pub the_found :
    {A : Type 0} (meta : A → ObjectMeta) (key : NamespacedName) (a old : A)
    → find meta key (some a) ≡ ok old
    → a ≡ old
the_found meta key a old h = let (e, _) = find_lem meta key (some a) old h in cc

find_in-appended :
    (key : NamespacedName) (a b : Secret) (others : List Secret)
    → find_in (λ (s : Secret). s.meta) key others ≡ ok a
    → find_in (λ (s : Secret). s.meta) key (others ++ b ∷ []) ≡ ok a
find_in-appended key a b [] h = cc
find_in-appended key a b (c ∷ others) h = elim (Bool-cases (same_key key c.meta)) [
  | inl s ↦ let h' = rw s at h in rw s h'
  | inr s ↦ let h' = rw s at h in rw s (find_in-appended key a b others h')
]

pub secret_kept :
    (s : Secret) (r : Result Secret) (w : World) (key : NamespacedName) (old : Secret)
    → (view_of w).secrets key ≡ some old
    → (view_of (add_to (λ l v. record v { secrets = l }) s w.secrets r w).1).secrets key ≡ some old
unfolding view_of
secret_kept s (ok _) w key old h = h
secret_kept s (err _) w key old h =
    ap found (find_in-appended key old s w.secrets (found-some _ old h))

pub secret_elsewhere :
    {B : Type 0} (f : World → B) (s : Secret) (r : Result Secret) (w : World)
    → ((l : List Secret) (v : World) → f (record v { secrets = l }) ≡ f v)
    → f (add_to (λ l v. record v { secrets = l }) s w.secrets r w).1 ≡ f w
secret_elsewhere f s (ok _) w h = refl
secret_elsewhere f s (err _) w h = h _ w

pub node_updated_status :
    (o : OpNode ℕ) (r : Result (OpNode ℕ)) (w : World)
    → let after = view_of (over (λ (old : OpNode ℕ) v. record v { node = o }) r w).1 in
      OldOr
        (λ (p : OpNode ℕ). p.status)
        (λ v. v.nodes)
        (view_of w)
        after
        (λ key τ. (name_of o.meta ≡ key) × (τ ≡ o.status))
unfolding view_of
node_updated_status o (ok old) w key new h =
    inr (updated-lem (λ (p : OpNode ℕ). p.meta) (λ (p : OpNode ℕ). p.status) o new key h)
node_updated_status o (err e) w key new h = inl (new, h, refl)

pub node_status_written :
    (o : OpNode ℕ) (r : Result (OpNode ℕ)) (w : World)
    → ((old : OpNode ℕ) → r ≡ ok old → name_of old.meta ≡ name_of o.meta)
    → let after =
        view_of
          (over
            (λ (old : OpNode ℕ) v. record v { node = record old { status = o.status } })
            r
            w).1 in
      OldOr
        (λ (p : OpNode ℕ). p.status)
        (λ v. v.nodes)
        (view_of w)
        after
        (λ key τ. (name_of o.meta ≡ key) × (τ ≡ o.status))
unfolding view_of
node_status_written o (ok old) w its key new h =
    let merged : OpNode ℕ = record old { status = o.status } in
    let (n, s) =
      updated-lem (λ (p : OpNode ℕ). p.meta) (λ (p : OpNode ℕ). p.status) merged new key h in
    inr (sym (its old refl) ∙ n, s)
node_status_written o (err e) w its key new h = inl (new, h, refl)

pub network_updated_status :
    (o : OptimismNetwork ℕ) (r : Result (OptimismNetwork ℕ)) (w : World)
    → let after =
        view_of (over (λ (old : OptimismNetwork ℕ) v. record v { its_network = o }) r w).1 in
      OldOr
        (λ (p : OptimismNetwork ℕ). p.status)
        (λ v. v.networks)
        (view_of w)
        after
        (λ key τ. (name_of o.meta ≡ key) × (τ ≡ o.status))
unfolding view_of
network_updated_status o (ok old) w key new h = inr (
    updated-lem (λ (p : OptimismNetwork ℕ). p.meta) (λ (p : OptimismNetwork ℕ). p.status) o new key
      h)
network_updated_status o (err e) w key new h = inl (new, h, refl)

pub network_status_written :
    (o : OptimismNetwork ℕ) (r : Result (OptimismNetwork ℕ)) (w : World)
    → ((old : OptimismNetwork ℕ) → r ≡ ok old → name_of old.meta ≡ name_of o.meta)
    → let after =
        view_of
          (over
            (λ (old : OptimismNetwork ℕ) v. record v {
              its_network = record old { status = o.status };
            })
            r
            w).1 in
      OldOr
        (λ (p : OptimismNetwork ℕ). p.status)
        (λ v. v.networks)
        (view_of w)
        after
        (λ key τ. (name_of o.meta ≡ key) × (τ ≡ o.status))
unfolding view_of
network_status_written o (ok old) w its key new h =
    let merged : OptimismNetwork ℕ = record old { status = o.status } in
    let (n, s) =
      updated-lem (λ (p : OptimismNetwork ℕ). p.meta) (λ (p : OptimismNetwork ℕ). p.status) merged
        new key h in
    inr (sym (its old refl) ∙ n, s)
network_status_written o (err e) w its key new h = inl (new, h, refl)

pub name_found :
    {A : Type 0} (meta : A → ObjectMeta) (key : NamespacedName) (a old : A)
    → find meta key (some a) ≡ ok old
    → name_of (meta old) ≡ key
name_found meta key a old h =
    let (_, k) = find_lem meta key (some a) old h in same_key_lem key (meta old) k
