-- ===== src/Selection/Exclusions.antt =====
-- context_selection/exclusions.py, which context_selection/candidates.py repeats.
use nova_harness.Prelude.{
  Bool, List, Text, [], any?, codes, ends_with, if◌then◌else◌, map, mem?, nat_eq, split_on, text_eq,
  ◌==◌, ◌||◌, ◌∷◌,
}

abbrev excluded_dirs : List Text
excluded_dirs =
    codes "node_modules"
    ∷ codes "__pycache__"
    ∷ codes ".git"
    ∷ codes ".venv"
    ∷ codes "venv"
    ∷ codes "dist"
    ∷ codes "build"
    ∷ codes ".next"
    ∷ codes ".nox"
    ∷ codes ".tox"
    ∷ codes ".eggs"
    ∷ codes "site-packages"
    ∷ codes ".pytest_cache"
    ∷ codes "coverage"
    ∷ codes ".coverage"
    ∷ []

abbrev excluded_files : List Text
excluded_files =
    codes "package-lock.json"
    ∷ codes "yarn.lock"
    ∷ codes "pnpm-lock.yaml"
    ∷ codes "poetry.lock"
    ∷ codes "Gemfile.lock"
    ∷ []

abbrev excluded_extensions : List Text
excluded_extensions =
    codes ".pyc"
    ∷ codes ".pyo"
    ∷ codes ".so"
    ∷ codes ".dll"
    ∷ codes ".dylib"
    ∷ codes ".png"
    ∷ codes ".jpg"
    ∷ codes ".jpeg"
    ∷ codes ".gif"
    ∷ codes ".ico"
    ∷ codes ".svg"
    ∷ codes ".ttf"
    ∷ codes ".woff"
    ∷ codes ".woff2"
    ∷ codes ".eot"
    ∷ codes ".zip"
    ∷ codes ".tar"
    ∷ codes ".gz"
    ∷ codes ".bz2"
    ∷ []

-- `path.replace("\\", "/")`
unfoldable pub with_slashes : Text → Text
with_slashes path = map (λ c. if c == 92 then 47 else c) path

unfoldable pub is_excluded : Text → Bool
is_excluded path =
    let parts = split_on 47 (with_slashes path) in
    any? (λ p. mem? p excluded_dirs) parts
    || any? (λ p. mem? p excluded_files) parts
    || any? (λ ext. ends_with ext path) excluded_extensions
