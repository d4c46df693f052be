-- ===== src/Operator/Watch/Requests.antt =====
-- Which external services the watches of externalservice_controller.go lead to.
use k8s_ext_connector.Prelude.{
  true, List, [], ◌∷◌, ◌==◌, eq_iff, ◌≡◌, ◌↔◌, inl, inr, refl, ap, ◌∙◌, subst, arith, In, In-append,
  Bool-cases,
}
use k8s_ext_connector.Prelude.Dict.{lookup}
use k8s_ext_connector.Exec.{ok}
use k8s_ext_connector.Api.{NamespacedName, Source, ExternalService, Endpoints}
use k8s_ext_connector.Operator.Names.{
  connector_namespace, external_service_namespace_label, external_service_name_label,
}
use k8s_ext_connector.Operator.Resource.{
  gen_forward_pod_spec, gen_forward_service_spec, forwarder_meta, labels_of,
}
use k8s_ext_connector.Operator.Watch.{
  request_if_both, requests_for_labels, requests_for_pod, requests_for_service, is_source_of,
  requests_for_sources, requests_for_all, requests_for_endpoints,
}

abbrev pub request_for : ExternalService → NamespacedName
request_for es = record { namespace = es.meta.namespace; name = es.meta.name }

-- An event on the pod or on the service that the operator makes for an external service leads to
-- one request, which is for that external service.
pub requests_for_pod-gen_forward_pod_spec :
    (cr : ExternalService)
    → (requests_for_pod (gen_forward_pod_spec cr) ≡ request_for cr ∷ [])
      × (requests_for_service (gen_forward_service_spec cr) ≡ request_for cr ∷ [])
unfolding requests_for_pod requests_for_service gen_forward_pod_spec gen_forward_service_spec
    requests_for_labels request_if_both forwarder_meta labels_of lookup ◌==◌ connector_namespace
    external_service_namespace_label external_service_name_label
requests_for_pod-gen_forward_pod_spec cr = (refl, refl)

-- The source names the endpoints.
abbrev pub NamesEndpoints : Source → Endpoints → Type 0
NamesEndpoints src ep =
    (ep.meta.namespace ≡ src.service.namespace) × (ep.meta.name ≡ src.service.name)

is_source_of_iff :
    (ep : Endpoints) (src : Source) → (is_source_of ep src ≡ true) ↔ NamesEndpoints src ep
unfolding is_source_of
is_source_of_iff ep src =
    let p = eq_iff ep.meta.namespace src.service.namespace in
    let q = eq_iff ep.meta.name src.service.name in
    (λ h. ground (arith, p, q), λ (a, b). ground (arith, p, q))

abbrev FromSources : NamespacedName → Endpoints → ExternalService → List Source → Type 0
FromSources n ep es sources =
    (src : Source) × In src sources × NamesEndpoints src ep × (n ≡ request_for es)

requests_for_sources-In :
    (n : NamespacedName) (ep : Endpoints) (es : ExternalService) (sources : List Source)
    → In n (requests_for_sources ep es sources) ↔ FromSources n ep es sources
unfolding requests_for_sources
requests_for_sources-In n ep es [] = (λ h. absurd h, λ h. absurd h.1)
requests_for_sources-In n ep es (src ∷ sources) =
    let ih = requests_for_sources-In n ep es sources in
    elim (Bool-cases (is_source_of ep src)) [
      | inl named ↦ rw named (
        λ h. elim h [
          | inl e ↦ (src, inl refl, (is_source_of_iff ep src).0 named, e)
          | inr m ↦ let (src', m', k, e) = ih.0 m in (src', inr m', k, e)
        ],
        λ (src', m, k, e). elim m [ inl same ↦ inl e | inr m' ↦ inr (ih.1 (src', m', k, e)) ],
      )
      | inr other ↦ rw other (
        λ h. let (src', m', k, e) = ih.0 h in (src', inr m', k, e),
        λ (src', m, k, e). elim m [
          | inl same ↦
              let k' = (is_source_of_iff ep src).1 (subst (λ s. NamesEndpoints s ep) same k) in
              absurd cc
          | inr m' ↦ ih.1 (src', m', k, e)
        ],
      )
    ]

-- The request is for one of the external services, and one of its sources names the endpoints.
abbrev pub Affected : NamespacedName → Endpoints → List ExternalService → Type 0
Affected n ep list =
    (es : ExternalService) × (src : Source) × In es list
    × In src es.spec.sources
    × NamesEndpoints src ep
    × (n ≡ request_for es)

requests_for_all-In :
    (n : NamespacedName) (ep : Endpoints) (list : List ExternalService)
    → In n (requests_for_all ep list) ↔ Affected n ep list
unfolding requests_for_all
requests_for_all-In n ep [] = (λ h. absurd h, λ h. absurd h.2)
requests_for_all-In n ep (es ∷ list) =
    let ih = requests_for_all-In n ep list in
    let here = requests_for_sources-In n ep es es.spec.sources in
    let parts =
      In-append n (requests_for_sources ep es es.spec.sources) (requests_for_all ep list) in
    (
      λ m. elim (parts.0 m) [
        | inl h ↦ let (src, k, names, e) = here.0 h in (es, src, inl refl, k, names, e)
        | inr t ↦ let (es', src, m', k, names, e) = ih.0 t in (es', src, inr m', k, names, e)
      ],
      λ (es', src, m, k, names, e). parts.1 (elim m [
        | inl same ↦ inl (
            here.1 (src, subst (λ x. In src x.spec.sources) same k, names, e ∙ ap request_for same))
        | inr m' ↦ inr (ih.1 (es', src, m', k, names, e))
      ]),
    )

-- An event on endpoints leads to the requests for exactly those external services of the list that
-- was read of which a source names the endpoints.
pub requests_for_endpoints-In :
    (n : NamespacedName) (ep : Endpoints) (list : List ExternalService)
    → In n (requests_for_endpoints ep (ok list)) ↔ Affected n ep list
unfolding requests_for_endpoints
requests_for_endpoints-In n ep list = requests_for_all-In n ep list
