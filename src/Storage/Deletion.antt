-- ===== src/Storage/Deletion.antt =====
-- StorageDeletionCoordinator of trpc_service/storage.py over adapters of any kind, which may share what
-- they store: a cache and an adapter of its authority may both be adapters of one coordinator.
pub mod Backends
pub mod Erasure
use trpc_agent_service_douzh.Prelude.{
  ℕ, String, List, [], ◌∷◌, Bool, true, false, ◌&&◌, if◌then◌else◌, exists,
}
use trpc_agent_service_douzh.Prelude.Action.{Result, ok, err}

pub data AdapterKind : Type 0 where
  sql redis vector object_store external_memory : AdapterKind

pub data DeletionError : Type 0 where
  adapters_incomplete legal_hold_placed deletion_unverified : DeletionError

-- What the coordinator calls of the protocol StorageAdapter, over what all adapters store.
pub record StorageAdapter (S : Type 0) : Type 0 where
  pub erase_tenant : String → S → ℕ × S
  pub verify_tenant_erased : String → S → Bool

-- The dict of the adapters, in its order.
abbrev pub Adapters : Type 0 → Type 0
Adapters S = List (AdapterKind × StorageAdapter S)

abbrev pub same_kind : AdapterKind → AdapterKind → Bool
same_kind sql sql = true
same_kind redis redis = true
same_kind vector vector = true
same_kind object_store object_store = true
same_kind external_memory external_memory = true
same_kind _ _ = false

pub record StorageDeletionReceipt : Type 0 where
  pub tenant_id : String
  pub deleted_by_backend : List (AdapterKind × ℕ)
  pub verified : Bool

module _ {S : Type 0} where
  abbrev pub has_kind : AdapterKind → Adapters S → Bool
  has_kind kind = exists (λ (a : AdapterKind × StorageAdapter S). same_kind a.0 kind)

  -- `__init__`
  unfoldable pub new_coordinator : Adapters S → Result DeletionError (Adapters S)
  new_coordinator adapters =
      if has_kind sql adapters
        && has_kind redis adapters
        && has_kind vector adapters
        && has_kind object_store adapters
      then ok adapters
      else err adapters_incomplete

  unfoldable pub erase_all : String → Adapters S → S → List (AdapterKind × ℕ) × S
  erase_all tenant [] s = ([], s)
  erase_all tenant ((kind, adapter) ∷ adapters) s =
      let (deleted, s₁) = adapter.erase_tenant tenant s in
      let (rest, s₂) = erase_all tenant adapters s₁ in ((kind, deleted) ∷ rest, s₂)

  unfoldable pub verify_all : String → Adapters S → S → Bool
  verify_all tenant [] s = true
  verify_all tenant ((kind, adapter) ∷ adapters) s =
      adapter.verify_tenant_erased tenant s && verify_all tenant adapters s

  -- `erase_tenant`
  unfoldable pub erase_everywhere :
      String
      → (legal_hold : Bool) → Adapters S
      → S
      → Result DeletionError StorageDeletionReceipt × S
  erase_everywhere tenant true adapters s = (err legal_hold_placed, s)
  erase_everywhere tenant false adapters s =
      let (deleted, s₁) = erase_all tenant adapters s in
      (
        if verify_all tenant adapters s₁
            then ok (record { tenant_id = tenant; deleted_by_backend = deleted; verified = true })
            else err deletion_unverified,
        s₁,
      )
