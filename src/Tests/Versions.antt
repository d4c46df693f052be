-- ===== src/Tests/Versions.antt =====
-- An API server that stores one gateway under resource versions.
use k8s_ext_connector.Prelude.{
  Text, codes, ℕ, ◌+◌, ◌≤◌, Option, some, ◌==◌, eq_iff, ◌≡◌, inl, inr, refl, sym, ap, arith,
  Bool-cases, if◌then◌else◌,
}
use k8s_ext_connector.Prelude.Int.{pos}
use k8s_ext_connector.Exec.{Result, ok, err, api}
use k8s_ext_connector.Util.Decimal.{itoa, itoa-injective}
use k8s_ext_connector.Api.{NamespacedName, GatewaySpec, GatewayStatus, Gateway}
use k8s_ext_connector.Api.Client.{Client}
use k8s_ext_connector.Gateway.Protocol.Store.{
  VersionedStore, Outcome, WritesSpec, WritesStatus, some-injective,
}
use k8s_ext_connector.Tests.World.{Pair, empty_client, fresh_gateway}

pub record Server : Type 0 where
  pub spec : GatewaySpec
  pub status : GatewayStatus Pair
  pub writes : ℕ

abbrev pub object : Server → Gateway Pair
object w = record {
  meta = record fresh_gateway.meta { resource_version = itoa (pos w.writes) };
  spec = w.spec;
  status = w.status;
}

-- A write is refused unless the version is the stored one.
abbrev pub write : Gateway Pair → Server → Server → Result (Gateway Pair) × Server
write g w w' =
    if itoa (pos w.writes) == g.meta.resource_version
    then (ok (object w'), w')
    else (err (api 409), w)

abbrev pub with_spec : Gateway Pair → Server → Server
with_spec g w = record { spec = g.spec; status = w.status; writes = w.writes + 1 }

abbrev pub with_status : Gateway Pair → Server → Server
with_status g w = record { spec = w.spec; status = g.status; writes = w.writes + 1 }

abbrev pub server : Client Pair Server
server = record empty_client {
  get_gateway = λ _ w. (ok (object w), w);
  update_gateway = λ g w. write g w (with_spec g w);
  update_gateway_status = λ g w. write g w (with_status g w);
}

abbrev pub stored : Server → Option (Gateway Pair)
stored w = some (object w)

abbrev pub Used : Server → Text → Type 0
Used w v = (m : ℕ) × (m ≤ w.writes) × (v ≡ itoa (pos m))

pub write_lem :
    (Parts : Gateway Pair → Gateway Pair → Gateway Pair → Type 0) (g : Gateway Pair) (w w' : Server)
    → w'.writes ≡ w.writes + 1
    → Parts g (object w) (object w')
    → Outcome stored Used Parts g w (write g w w')
write_lem Parts g w w' next parts =
    elim (Bool-cases (itoa (pos w.writes) == g.meta.resource_version)) [
      | inl same ↦ rw same (
          inr (
            object w,
            object w',
            record {
              found = refl;
              current = (eq_iff (itoa (pos w.writes)) g.meta.resource_version).0 same;
              stores = refl;
              fresh = inr λ (m, le, e). absurd (omega (arith, itoa-injective w'.writes m e));
            },
            parts,
            inl refl,
          ))
      | inr other ↦ rw other (inl (refl, (api 409, refl)))
    ]

pub write-Used :
    (g : Gateway Pair) (w w' : Server) (v : Text)
    → w'.writes ≡ w.writes + 1
    → Used w v
    → Used (write g w w').1 v
write-Used g w w' v next (m, le, e) =
    elim (Bool-cases (itoa (pos w.writes) == g.meta.resource_version)) [
      | inl same ↦ rw same (m, omega arith, e)
      | inr other ↦ rw other (m, le, e)
    ]

pub answered :
    {a b : Gateway Pair}
    → ◌≡◌ {A = Result (Gateway Pair)} (ok a) (ok b)
    → ◌≡◌ {A = Option (Gateway Pair)} (some a) (some b)
answered h = cc

abbrev pub this : NamespacedName
this = record { namespace = codes "external-services"; name = codes "gwrulec0a87ac8" }

abbrev pub versions : VersionedStore server this
versions = record {
  stored = stored;
  used = Used;
  stored_used = λ w g e. (
    w.writes,
    omega arith,
    ap (λ (x : Gateway Pair). x.meta.resource_version) (sym (some-injective stored Used e)),
  );
  get_lem = λ w g e. answered e;
  get_stored = λ w. refl;
  get_used = λ w v u. u;
  update_lem = λ g w. write_lem WritesSpec g w (with_spec g w) refl (refl, refl);
  update_used = λ g w v u. write-Used g w (with_spec g w) v refl u;
  status_lem = λ g w. write_lem WritesStatus g w (with_status g w) refl (refl, refl);
  status_used = λ g w v u. write-Used g w (with_status g w) v refl u;
}
