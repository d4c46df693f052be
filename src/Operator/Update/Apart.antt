-- ===== src/Operator/Update/Apart.antt =====
-- The gateways that the loop of `updateGatewayRules` of
-- pkg/controller/externalservice/reconciler.go visits are different ones.
use k8s_ext_connector.Prelude.{
  Text, true, some, none, List, [], ◌∷◌, ◌==◌, eq_iff, eq_refl, ◌≡◌, ◌≢◌, ◌⊎◌, ◌↔◌, refl, sym, ap,
  ◌∙◌, arith, inl, inr, Bool-cases, In, All, All-In, All-pointwise, Option,
}
use k8s_ext_connector.Prelude.Dict.{Dict, lookup, is_some}
use k8s_ext_connector.Api.{NamespacedName, ForwarderRule}
use k8s_ext_connector.Operator.Ports.Assign.{Distinct}
use k8s_ext_connector.Operator.Rules.{get_unique_gateway}
use k8s_ext_connector.Operator.Rules.Unique.{
  gateway_of, unique_gateways-Distinct, unique_gateways_sound, unique_gateways_complete,
}
use k8s_ext_connector.Operator.Update.Found.{Apart}

-- No two entries name one gateway.
abbrev pub AllApart : Dict NamespacedName → Type 0
AllApart [] = Unit
AllApart ((ip, n) ∷ rest) = All (λ e. Apart e.1 n) rest × AllApart rest

-- Rules have one address where they have one gateway.
abbrev pub IsPaired : List ForwarderRule → Type 0
IsPaired rules =
    All (λ r. All (λ s. (r.gateway_ip ≡ s.gateway_ip) ↔ (gateway_of r ≡ gateway_of s)) rules) rules

pub IsPaired-at :
    (rules : List ForwarderRule) (r s : ForwarderRule)
    → IsPaired rules
    → In r rules
    → In s rules
    → (r.gateway_ip ≡ s.gateway_ip) ↔ (gateway_of r ≡ gateway_of s)
IsPaired-at rules r s paired i j = All-In _ s rules (All-In _ r rules paired i) j

is_some_lem : (o : Option NamespacedName) → is_some o ≡ true → (n : NamespacedName) × (o ≡ some n)
is_some_lem none h = absurd cc
is_some_lem (some n) h = (n, refl)

lookup-In :
    (ip : Text) (n : NamespacedName) (table : Dict NamespacedName)
    → lookup ip table ≡ some n
    → In (ip, n) table
unfolding lookup
lookup-In ip n [] h = absurd cc
lookup-In ip n ((k, v) ∷ table) h = elim (Bool-cases (k == ip)) [
  | inl same ↦
      let e = (eq_iff k ip).0 same in
      let f : v ≡ n = cc (rw same at h) in inl (ap (λ x. (x, n)) (sym e) ∙ ap (λ x. (k, x)) (sym f))
  | inr other ↦ inr (lookup-In ip n table (rw other at h))
]

In-lookup :
    (ip : Text) (n : NamespacedName) (table : Dict NamespacedName)
    → Distinct table
    → In (ip, n) table
    → lookup ip table ≡ some n
unfolding lookup
In-lookup ip n [] d i = absurd i
In-lookup ip n ((k, v) ∷ table) d (inl e) =
    let same = ap (λ (x : Text × NamespacedName). x.0) e in
    let value = ap (λ (x : Text × NamespacedName). x.1) e in
    rw (same, value) (ground (arith, eq_refl k))
In-lookup ip n ((k, v) ∷ table) d (inr i) =
    let found = In-lookup ip n table d.1 i in ground (arith, found, d.0, eq_iff k ip)

pub Apart-sym : (n m : NamespacedName) → Apart n m → Apart m n
Apart-sym n m (inl d) = inl (λ e. d (sym e))
Apart-sym n m (inr d) = inr (λ e. d (sym e))

-- Names are apart or the same.
pub Apart-cases : (n m : NamespacedName) → Apart n m ⊎ (n ≡ m)
Apart-cases n m = elim (Bool-cases (n.namespace == m.namespace)) [
  | inr other ↦ inl (inl (λ e. absurd (let b = (eq_iff n.namespace m.namespace).1 e in cc)))
  | inl same ↦ elim (Bool-cases (n.name == m.name)) [
    | inr other ↦ inl (inr (λ e. absurd (let b = (eq_iff n.name m.name).1 e in cc)))
    | inl same' ↦
        let en = (eq_iff n.namespace m.namespace).0 same in
        let em = (eq_iff n.name m.name).0 same' in
        inr (
          ap (λ x. record { namespace = x; name = n.name }) en
          ∙ ap (λ x. record { namespace = m.namespace; name = x }) em)
  ]
]

Apart-intro : (n m : NamespacedName) → n ≢ m → Apart n m
Apart-intro n m h = elim (Apart-cases n m) [ inl d ↦ d | inr e ↦ absurd (h e) ]

-- A name is apart from those of the table, or is one of them.
All-Apart-cases :
    (m : NamespacedName) (table : Dict NamespacedName)
    → All (λ e. Apart e.1 m) table ⊎ ((ip : Text) × In (ip, m) table)
All-Apart-cases m [] = inl tt
All-Apart-cases m ((ip, n) ∷ table) = elim (Apart-cases n m) [
  | inr e ↦ inr (ip, inl (ap (λ x. (ip, x)) (sym e)))
  | inl d ↦ elim (All-Apart-cases m table) [ inl ds ↦ inl (d, ds) | inr (jp, i) ↦ inr (jp, inr i) ]
]

-- A table that gives no two addresses one gateway.
abbrev IsOneToOne : Dict NamespacedName → Type 0
IsOneToOne table =
    (ip jp : Text) (n : NamespacedName)
    → lookup ip table ≡ some n
    → lookup jp table ≡ some n
    → ip ≡ jp

IsOneToOne-tail :
    (k : Text) (v : NamespacedName) (table : Dict NamespacedName)
    → Distinct ((k, v) ∷ table)
    → IsOneToOne ((k, v) ∷ table)
    → IsOneToOne table
unfolding lookup
IsOneToOne-tail k v table d one ip jp n h h' =
    one ip jp n (ground (arith, h, d.0, eq_iff k ip)) (ground (arith, h', d.0, eq_iff k jp))

IsOneToOne-AllApart :
    (table : Dict NamespacedName) → Distinct table → IsOneToOne table → AllApart table
unfolding lookup
IsOneToOne-AllApart [] d one = tt
IsOneToOne-AllApart ((k, v) ∷ table) d one = (
  All-pointwise (λ e. Apart e.1 v) table
      (λ e i. Apart-intro e.1 v (λ same.
        let found = In-lookup e.0 e.1 table d.1 i in
        let again : lookup e.0 ((k, v) ∷ table) ≡ some v =
          ground (arith, found ∙ ap some same, eq_iff k e.0) in
        let keys = one k e.0 v (ground (arith, eq_refl k)) again in
        cc (found, d.0, ap (λ x. lookup x table) keys))),
  IsOneToOne-AllApart table d.1 (IsOneToOne-tail k v table d one),
)

get_unique_gateway-IsFrom :
    (rules : List ForwarderRule) (ip : Text) (n : NamespacedName)
    → lookup ip (get_unique_gateway rules) ≡ some n
    → (rule : ForwarderRule) × In rule rules × (rule.gateway_ip ≡ ip) × (gateway_of rule ≡ n)
unfolding get_unique_gateway lookup
get_unique_gateway-IsFrom rules ip n h = elim (unique_gateways_sound rules [] ip n h) [
  | inl found ↦ found
  | inr none_there ↦ absurd cc
]

-- Rules of different gateways.
pub get_unique_gateway-AllApart :
    (rules : List ForwarderRule) → IsPaired rules → AllApart (get_unique_gateway rules)
unfolding get_unique_gateway
get_unique_gateway-AllApart rules agree =
    IsOneToOne-AllApart (get_unique_gateway rules) (unique_gateways-Distinct rules [] tt)
      (λ ip jp n h h'.
        let (r, i, e, g) = get_unique_gateway-IsFrom rules ip n h in
        let (s, j, e', g') = get_unique_gateway-IsFrom rules jp n h' in
        sym e ∙ (IsPaired-at rules r s agree i j).1 (g ∙ sym g') ∙ e')

-- Each rule's gateway is visited, with the rule's address.
pub get_unique_gateway-In :
    (rules : List ForwarderRule) (rule : ForwarderRule)
    → IsPaired rules
    → In rule rules
    → In (rule.gateway_ip, gateway_of rule) (get_unique_gateway rules)
unfolding get_unique_gateway
get_unique_gateway-In rules rule agree i =
    let (n, found) =
      is_some_lem (lookup rule.gateway_ip (get_unique_gateway rules))
        (unique_gateways_complete rules [] rule i) in
    let (s, j, e, g) = get_unique_gateway-IsFrom rules rule.gateway_ip n found in
    lookup-In rule.gateway_ip (gateway_of rule) (get_unique_gateway rules)
      (found ∙ ap some (sym g ∙ (IsPaired-at rules s rule agree j i).0 e))

-- A name is apart from those that are visited, or a rule has it.
pub get_unique_gateway-cases :
    (rules : List ForwarderRule) (m : NamespacedName)
    → All (λ e. Apart e.1 m) (get_unique_gateway rules)
      ⊎ ((rule : ForwarderRule) × In rule rules × (gateway_of rule ≡ m))
unfolding get_unique_gateway
get_unique_gateway-cases rules m = elim (All-Apart-cases m (get_unique_gateway rules)) [
  | inl ds ↦ inl ds
  | inr (ip, i) ↦
      let found =
        In-lookup ip m (get_unique_gateway rules) (unique_gateways-Distinct rules [] tt) i in
      let (rule, j, _, g) = get_unique_gateway-IsFrom rules ip m found in inr (rule, j, g)
]
