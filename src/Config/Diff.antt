-- ===== src/Config/Diff.antt =====
-- The difference of two whitelists, by membership.
use loraterm.Common.{◌≡◌, ◌∙◌, not, ◌&&◌}
use loraterm.Text.{Text}
use loraterm.Config.{Whitelist, has, keys, collect_set, diff_whitelist}
use loraterm.Config.Keys.{has-collect_set, has-difference}

-- A key is added exactly when it is new, and removed exactly when it is no longer there.
pub diff_whitelist-has :
    (old new : Whitelist) (k : Text)
    → (has k (diff_whitelist old new).added ≡ (has k (keys new) && not (has k (keys old))))
      × (has k (diff_whitelist old new).removed ≡ (has k (keys old) && not (has k (keys new))))
unfolding diff_whitelist
diff_whitelist-has old new k = (
  has-difference k (collect_set (keys new)) (collect_set (keys old))
      ∙ rw (has-collect_set k (keys new), has-collect_set k (keys old)),
  has-difference k (collect_set (keys old)) (collect_set (keys new))
      ∙ rw (has-collect_set k (keys new), has-collect_set k (keys old)),
)
