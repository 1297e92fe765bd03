-- ===== src/Startup/AppNames.antt =====
-- Blocking an application by its name through `DPIEngine` of dpi/dpi_engine.py.
use python_deep_packet_inspe.Prelude.{◌≡◌, false, Option, refl}
use python_deep_packet_inspe.Apps.{AppType, app_count, same_app, app_type_to_string}
use python_deep_packet_inspe.Rules as Rulebook
use python_deep_packet_inspe.Rules.{RuleManager}
use python_deep_packet_inspe.Rules.File.Entries.{named}
use python_deep_packet_inspe.Startup.{edit_rules, block_app_named, unblock_app_named}

-- The name of an application blocks and unblocks that application, and is not reported.
block_app_named-app_type_to_string :
    (app : AppType) (manager : Option RuleManager)
    → same_app app app_count ≡ false
    → (block_app_named (app_type_to_string app) manager
        ≡ (edit_rules (Rulebook.block_app app) manager, false))
      × (unblock_app_named (app_type_to_string app) manager
          ≡ edit_rules (Rulebook.unblock_app app) manager)
unfolding block_app_named unblock_app_named
block_app_named-app_type_to_string app manager h =
    let (entry, found, plain) = named app h in
    (rw (found, block_app_named) refl, rw (found, unblock_app_named) refl)
