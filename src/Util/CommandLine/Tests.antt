-- ===== src/Util/CommandLine/Tests.antt =====
-- Runs of `splitCommandLine` on concrete lines.
use termcp.Base.{[], ◌∷◌, ◌≡◌, refl, codes}
use termcp.Util.CommandLine.{split_command_line}

quoted_path :
    split_command_line (codes "ls -la \"my dir\"") ≡ codes "ls" ∷ codes "-la" ∷ codes "my dir" ∷ []
unfolding split_command_line
quoted_path = refl
