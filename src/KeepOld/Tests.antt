-- ===== src/KeepOld/Tests.antt =====
-- A kept table, `orders`, beside the one that replaced it.
use snakemake_storage_plugin.Base.{
  ◌≡◌, refl, ◌<>◌, String, true, false, none, some, List, [], ◌∷◌, Memᴰ, any, keep, contains, map,
  if◌then◌else◌, ℕ,
}
use snakemake_storage_plugin.Base.Result.{ok}
use snakemake_storage_plugin.Sql.{
  plain, same_ref, Kind, table, Relation, loaded, table_updates, role, everyone, same_grantee,
}
use snakemake_storage_plugin.Sql.Memory.{Memory, postgresql_memory, postgresql_memory-IsServer}
use snakemake_storage_plugin.Sql.Exec.{execute, begin, for_each, ◌>>=◌}
use snakemake_storage_plugin.Meta.{advisory_lock, fetch_one, table_exists}
use snakemake_storage_plugin.Engine.{Environ, apply_given_timeout, resolve_lock_timeout}
use snakemake_storage_plugin.KeepOld.{Codec, tag, old_name, kind_of, park, park_kind, set_aside}
use snakemake_storage_plugin.KeepOld.Rollback.{
  KeptRelation, live_ref, aside_ref, select, list_kept, recorded_grants, restore_grants, swap_back,
  forget_in, forget_markers, rollback_block, rollback_kept_old, drop_kind, cleanup_block,
}
use snakemake_storage_plugin.KeepOld.Swapped.{swap_back_swaps, kept_body}
use snakemake_storage_plugin.KeepOld.Moves.{body_in}
use snakemake_storage_plugin.KeepOld.Cleanup.{cleanup_block_exact, less}
use snakemake_storage_plugin.KeepOld.Forget.{rollback_kept_old_forgets}
use snakemake_storage_plugin.KeepOld.Unreadable.{park_unreadable, grants_in}

abbrev one_grant : Codec
one_grant = record { dumps = λ k g. "{}"; loads = λ t. ("app", "SELECT") ∷ []; upper = λ t. t }

abbrev no_environ : Environ
no_environ name = none

abbrev kept_orders : KeptRelation
kept_orders = record { schema = "public"; name = "orders"; kind = table }

abbrev load_of : ℕ → Relation
load_of n = record {
  kind = table;
  body = loaded n;
  comment = some (tag <> "{}");
  grants = (role "app", "SELECT") ∷ (everyone, "SELECT") ∷ [];
}

-- Load 2 replaced load 1, which was kept.
abbrev replaced : Memory
replaced = record {
  catalog = λ r.
      if same_ref (plain "orders") r
      then some (load_of 2)
      else if same_ref (plain "__old__orders") r
      then some (record (load_of 1) { grants = [] })
      else none;
  rows = λ m k. none;
  links = [];
}

abbrev found_orders : Memory → List (String × String × Kind)
found_orders s = ("public", "__old__orders", table) ∷ []

abbrev after_turn : Memory
after_turn = (swap_back postgresql_memory one_grant kept_orders replaced).1

turned : swap_back postgresql_memory one_grant kept_orders replaced ≡ (ok tt, after_turn)
unfolding swap_back execute ◌>>=◌ kind_of park park_kind set_aside for_each restore_grants
    recorded_grants any contains
turned = refl

swap_back_swaps_example :
    (body_in (postgresql_memory.relation after_turn (live_ref kept_orders))
      ≡ body_in (postgresql_memory.relation replaced (aside_ref kept_orders)))
    × (body_in (postgresql_memory.relation after_turn (aside_ref kept_orders))
        ≡ kept_body true (postgresql_memory.relation replaced (live_ref kept_orders)))
swap_back_swaps_example =
    swap_back_swaps postgresql_memory postgresql_memory-IsServer one_grant kept_orders replaced
      after_turn turned

abbrev after_rollback : Memory
after_rollback =
    (rollback_kept_old postgresql_memory one_grant found_orders no_environ none none [] replaced).1

rolled_back :
    rollback_kept_old postgresql_memory one_grant found_orders no_environ none none [] replaced
    ≡ (ok (kept_orders ∷ []), after_rollback)
unfolding rollback_kept_old rollback_block advisory_lock apply_given_timeout resolve_lock_timeout
    begin select list_kept keep swap_back execute ◌>>=◌ kind_of park park_kind set_aside for_each
    restore_grants recorded_grants any contains forget_markers forget_in table_exists
rolled_back = refl

rollback_kept_old_forgets_example :
    fetch_one postgresql_memory table_updates "orders" after_rollback ≡ none
rollback_kept_old_forgets_example =
    rollback_kept_old_forgets postgresql_memory postgresql_memory-IsServer one_grant found_orders
      no_environ none none [] replaced after_rollback (kept_orders ∷ []) rolled_back kept_orders
      (Memᴰ.head refl) table_updates refl

abbrev after_cleanup : Memory
after_cleanup = (cleanup_block postgresql_memory one_grant found_orders none [] replaced).1

cleaned :
    cleanup_block postgresql_memory one_grant found_orders none [] replaced
    ≡ (ok (kept_orders ∷ []), after_cleanup)
unfolding cleanup_block select list_kept keep drop_kind for_each execute ◌>>=◌
cleaned = refl

cleanup_block_exact_example :
    postgresql_memory.relation after_cleanup (plain "__old__orders")
    ≡ less
        (map aside_ref
          (select none (list_kept postgresql_memory one_grant found_orders [] replaced)))
        (postgresql_memory.relation replaced (plain "__old__orders"))
        (plain "__old__orders")
cleanup_block_exact_example =
    cleanup_block_exact postgresql_memory postgresql_memory-IsServer one_grant found_orders none []
      replaced after_cleanup (kept_orders ∷ []) cleaned (plain "__old__orders")

-- Before anything is kept.
abbrev live_only : Memory
live_only = record replaced {
  catalog = λ r. if same_ref (plain "orders") r then some (load_of 2) else none;
}

abbrev after_park : Memory
after_park = (park postgresql_memory one_grant (plain "orders") none live_only).1

parked : park postgresql_memory one_grant (plain "orders") none live_only ≡ (ok true, after_park)
unfolding execute ◌>>=◌ kind_of park park_kind set_aside for_each
parked = refl

no_role_public :
    any
      (λ g. same_grantee g.0 (role "PUBLIC"))
      (grants_in (postgresql_memory.relation live_only (plain "orders")))
    ≡ false
unfolding any
no_role_public = refl

park_unreadable_example :
    grants_in (postgresql_memory.relation after_park (plain (old_name "orders"))) ≡ []
park_unreadable_example =
    park_unreadable postgresql_memory postgresql_memory-IsServer one_grant (plain "orders") none
      live_only after_park refl no_role_public parked
