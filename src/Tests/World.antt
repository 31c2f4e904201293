-- ===== src/Tests/World.antt =====
-- A small in-memory cluster, with the secrets and one object of each other kind, and objects for it.
use op_stack_operator.Prelude.{
  ap, inl, inr, Bool-cases, arith, eq_iff, ◌≡◌, ℕ, ◌+◌, String, Bool, true, false, ◌&&◌, Option,
  none, some, List, [], ◌∷◌, ◌++◌, str_eq, if◌then◌else◌, ◌==◌,
}
use op_stack_operator.Prelude.Int.{pos}
use op_stack_operator.Api.Meta.{NamespacedName, ObjectMeta}
use op_stack_operator.Api.Network.{OptimismNetwork}
use op_stack_operator.Api.Node.{OpNode}
use op_stack_operator.Runtime.{Error, Result, ok, err, not_found, other, is_conflict, Eff}
use op_stack_operator.Resources.Objects.{Secret, StatefulSet, Service, ConfigMap}
use op_stack_operator.Api.Meta.{name_of}
use op_stack_operator.Tests.Samples.{network, replica}
use op_stack_operator.Cluster.{Client, Cluster}

abbrev pub missing : Error
missing = record { reason = not_found; text = "not found" }

pub record World : Type 0 where
  pub node : OpNode ℕ
  pub its_network : OptimismNetwork ℕ
  pub secrets : List Secret
  pub set : Option (StatefulSet ℕ)
  pub service : Option Service
  pub config_map : Option ConfigMap
  pub time : ℕ

abbrev pub start : World
start = record {
  node = replica;
  its_network = network;
  secrets = [];
  set = none;
  service = none;
  config_map = none;
  time = 1000;
}

abbrev pub same_key : NamespacedName → ObjectMeta → Bool
same_key key meta = str_eq meta.name key.name && str_eq meta.namespace key.namespace

-- The object of a place in the world, if it has that name.
abbrev pub find : {A : Type 0} → (A → ObjectMeta) → NamespacedName → Option A → Result A
find meta key none = err missing
find meta key (some a) = if same_key key (meta a) then ok a else err missing

-- Writing over what was found, or not.
abbrev pub over : {A : Type 0} → (A → World → World) → Result A → Eff World (Result (Unit {0}))
over put (ok old) w = (ok tt, put old w)
over put (err e) w = (err e, w)

-- Room for one object of a kind, with how a status is put into an object: Create takes the room, Update
-- needs an object of that name.
abbrev pub place :
    {A : Type 0}
    → (A → ObjectMeta)
    → (World → Option A)
    → (A → World → World)
    → (A → A → A)
    → Client World A
place meta at put merge = record {
  get = λ key w. (find meta key (at w), w);
  create = λ a w. (ok tt, put a w);
  update = λ a w. over (λ old. put a) (find meta (name_of (meta a)) (at w)) w;
  update_status = λ a w. over (λ old. put (merge old a)) (find meta (name_of (meta a)) (at w)) w;
}

abbrev pub already_exists : Error
already_exists = record { reason = other; text = "already exists" }

-- The object of that name in a list of objects.
abbrev pub find_in : {A : Type 0} → (A → ObjectMeta) → NamespacedName → List A → Result A
find_in meta key [] = err missing
find_in meta key (a ∷ others) =
    let rest = find_in meta key others in if same_key key (meta a) then ok a else rest

-- Create, by what is found under the name of the new object.
abbrev pub add_to :
    {A : Type 0} → (List A → World → World) → A → List A → Result A → Eff World (Result (Unit {0}))
add_to put a others (ok _) w = (err already_exists, w)
add_to put a others (err _) w = (ok tt, put (others ++ a ∷ []) w)

-- Every object of a kind; Create refuses a name that is taken, and Update is refused.
abbrev pub shelf :
    {A : Type 0} → (A → ObjectMeta) → (World → List A) → (List A → World → World) → Client World A
shelf meta at put = record {
  get = λ key w. (find_in meta key (at w), w);
  create = λ a w. add_to put a (at w) (find_in meta (name_of (meta a)) (at w)) w;
  update = λ a w. (err missing, w);
  update_status = λ a w. (err missing, w);
}

-- A second attempt behind a conflict.
abbrev pub second_attempt :
    Eff World (Result (Unit {0})) → Result (Unit {0}) × World → Result (Unit {0}) × World
second_attempt f (ok u, w) = (ok u, w)
second_attempt f (err e, w) = if is_conflict e then f w else (err e, w)

-- Thirty-two bytes.
abbrev pub random_bytes : List ℕ
random_bytes =
    0 ∷ 1 ∷ 2 ∷ 3 ∷ 4 ∷ 5 ∷ 6 ∷ 7 ∷ 8 ∷ 9 ∷ 10 ∷ 11 ∷ 12 ∷ 13 ∷ 14 ∷ 15 ∷ 240 ∷ 241 ∷ 242 ∷ 243
    ∷ 244 ∷ 245 ∷ 246 ∷ 247 ∷ 248 ∷ 249 ∷ 250 ∷ 251 ∷ 252 ∷ 253 ∷ 254 ∷ 255 ∷ []

abbrev pub has : List String → String → Bool
has [] f = false
has (g ∷ fs) f = let rest = has fs f in if str_eq g f then true else rest

abbrev pub cluster : Cluster World ℕ ℕ
cluster = record {
  op_nodes =
      place (λ o. o.meta) (λ w. some w.node) (λ o w. record w { node = o })
        (λ o p. record o { status = p.status });
  networks =
      place (λ n. n.meta) (λ w. some w.its_network) (λ n w. record w { its_network = n })
        (λ n p. record n { status = p.status });
  secrets = shelf (λ s. s.meta) (λ w. w.secrets) (λ l w. record w { secrets = l });
  stateful_sets =
      place (λ s. s.meta) (λ w. w.set) (λ s w. record w { set = some s }) (λ old new. new);
  services =
      place (λ s. s.meta) (λ w. w.service) (λ s w. record w { service = some s }) (λ old new. new);
  config_maps =
      place (λ c. c.meta) (λ w. w.config_map) (λ c w. record w { config_map = some c })
        (λ old new. new);
  now = λ w. (pos w.time, record w { time = w.time + 1 });
  read_random = λ _ w. (ok random_bytes, w);
  set_controller_reference =
      λ kind owner meta. ok (record meta { owner_references = (kind, owner.name) ∷ [] });
  contains_finalizer = λ meta f. has meta.finalizers f;
  add_finalizer = λ meta f. record meta { finalizers = f ∷ meta.finalizers };
  remove_finalizer = λ meta _. record meta { finalizers = [] };
  retry_on_conflict = λ f w. second_attempt f (f w);
  backoff = λ w. w;
  is_zero = λ q. q == 0;
  must_parse = λ _. 1;
  dial = λ _ w. (ok 0, w);
  dial_context = λ _ _ w. (ok 0, w);
  chain_id = λ _ _ w. (ok (pos 11155111), w);
  close = λ _ w. (tt, w);
  int64 = λ z. z;
}

pub same_key_lem :
    (key : NamespacedName) (meta : ObjectMeta) → same_key key meta ≡ true → name_of meta ≡ key
same_key_lem key meta h =
    let n : meta.name ≡ key.name = ground (arith, h, eq_iff meta.name key.name) in
    let s : meta.namespace ≡ key.namespace =
      ground (arith, h, eq_iff meta.namespace key.namespace) in
    λ i. record { name = n i; namespace = s i }

pub find_lem :
    {A : Type 0} (meta : A → ObjectMeta) (key : NamespacedName) (o : Option A) (a : A)
    → find meta key o ≡ ok a
    → (o ≡ some a) × (same_key key (meta a) ≡ true)
find_lem meta key none a h = cc
find_lem meta key (some b) a h = elim (Bool-cases (same_key key (meta b))) [
  | inl s ↦ let e : b ≡ a = ground (arith, h, s) in (ap some e, rw (← e) s)
  | inr s ↦ ground (arith, h, s)
]

pub over-Keeps :
    {A : Type 0} (I : World → Type 0) (put : A → World → World) (r : Result A) (w : World)
    → I w
    → ((a : A) (v : World) → I v → I (put a v))
    → I (over put r w).1
over-Keeps I put (ok a) w h keeps = keeps a w h
over-Keeps I put (err e) w h keeps = h
