-- ===== src/Tests/Refused.antt =====
-- An API that refuses to write the specs of gateways.
use k8s_ext_connector.Prelude.{codes, [], some, ◌≡◌, ◌⊎◌, false, refl, ap, ◌==◌}
use k8s_ext_connector.Exec.{api, fail}
use k8s_ext_connector.Api.{Gateway}
use k8s_ext_connector.Api.Client.{Client}
use k8s_ext_connector.Operator.Update.{update_rules_for_one_gateway, begin_gateway}
use k8s_ext_connector.Operator.Update.Store.{gateway_kind, Store}
use k8s_ext_connector.Operator.Update.Handover.{gateway_laws, wanted}
use k8s_ext_connector.Operator.Update.Stopped.{
  Refuses, IsUnfinished, update_rules_for_one_gateway-IsUnfinished,
}
use k8s_ext_connector.Gateway.Status.{need_sync, need_check_sync}
use k8s_ext_connector.Tests.Store.{start}
use k8s_ext_connector.Tests.Stored.{Stored, client, gateway_store, gateway_setters, set_gateways}
use k8s_ext_connector.Tests.Table.{put_found_refused}
use k8s_ext_connector.Tests.World.{
  Pair, pair_conditions, pair_laws, fresh, fresh_gateway, status_of, set_status, differs,
}

abbrev refusing : Client Pair Stored
refusing = record client { update_gateway = λ _. fail (api 500) }

abbrev refusing_store : Store gateway_kind refusing.update_gateway refusing.update_gateway_status
refusing_store = record {
  stored = gateway_store.stored;
  update_lem = λ o s o' w e h. absurd cc;
  status_lem = gateway_store.status_lem;
  update_current = λ o o' w h. absurd cc;
  status_current = gateway_store.status_current;
  update_others = λ o a b w d. refl;
  status_others = gateway_store.status_others;
}

refusing_refuses : Refuses pair_conditions pair_laws gateway_kind gateway_laws refusing_store
refusing_refuses = record {
  update_refused = λ o a b e w h. refl;
  status_refused = λ o a b e w h.
      ap (refusing_store.stored a b)
        (put_found_refused gateway_kind gateway_setters (λ v. v.gateways) set_gateways _ _ e w h);
}

update_rules_for_one_gateway-IsUnfinished_example :
    (s : Gateway Pair) × (refusing_store.stored fresh_gateway.meta.namespace fresh_gateway.meta.name
        (update_rules_for_one_gateway pair_conditions fresh.status.conditions refusing []
          fresh_gateway
          (codes "192.168.122.200")
          start).1
      ≡ some s)
    × ((s ≡ fresh_gateway)
        ⊎ (IsUnfinished pair_conditions pair_laws gateway_kind gateway_laws refusing_store
              fresh_gateway
              (wanted [] fresh_gateway (codes "192.168.122.200"))
              s
            × (need_sync pair_conditions s ≡ false)
            × (need_check_sync pair_conditions s ≡ false)))
unfolding update_rules_for_one_gateway begin_gateway differs status_of set_status ◌==◌
update_rules_for_one_gateway-IsUnfinished_example =
    update_rules_for_one_gateway-IsUnfinished pair_conditions pair_laws fresh.status.conditions
      refusing refusing_store refusing_refuses [] fresh_gateway (codes "192.168.122.200") (api 500)
      start refl refl
