-- ===== src/Query/Allowlist.antt =====
-- src/query/dead_exports_allowlist.ts: which files are entry points of a framework.
use codespine.Common.{
  suc, Bool, true, false, not, ◌&&◌, ◌||◌, none, some, List, [], ◌∷◌, ◌++◌, Text, codes, filter,
  if◌then◌else◌, includes, text_key, ltb, length, text_eq, nat_beq, drop, take, any,
}
use codespine.Common.Strings.{split, last_index_of}

abbrev pub script_extensions : List Text
script_extensions =
    codes "js"
    ∷ codes "jsx"
    ∷ codes "mjs"
    ∷ codes "cjs"
    ∷ codes "ts"
    ∷ codes "tsx"
    ∷ codes "mts"
    ∷ codes "cts"
    ∷ []

abbrev pub nextjs_app_router_stems : List Text
nextjs_app_router_stems =
    codes "page"
    ∷ codes "layout"
    ∷ codes "loading"
    ∷ codes "error"
    ∷ codes "not-found"
    ∷ codes "global-error"
    ∷ codes "template"
    ∷ codes "default"
    ∷ codes "route"
    ∷ codes "sitemap"
    ∷ codes "robots"
    ∷ codes "manifest"
    ∷ codes "opengraph-image"
    ∷ codes "twitter-image"
    ∷ codes "icon"
    ∷ codes "apple-icon"
    ∷ []

abbrev pub nextjs_route_directories : List Text
nextjs_route_directories = codes "app" ∷ codes "pages" ∷ []

-- `.split('\\\\').join('/')`: one code unit for another.
unfoldable pub to_slashes : Text → Text
to_slashes [] = []
to_slashes (c ∷ s) = (if nat_beq c 92 then b'/' else c) ∷ to_slashes s

unfoldable pub path_segments : Text → List Text
unfolding to_slashes
path_segments path = filter (λ segment. ltb 0 (length segment)) (split b'/' (to_slashes path))

-- The last of some segments, or the empty text.
unfoldable pub last_or_empty : List Text → Text
last_or_empty [] = []
last_or_empty (s ∷ []) = s
last_or_empty (s ∷ t ∷ r) = last_or_empty (t ∷ r)

-- `segments.slice(0, -1)`
unfoldable pub all_but_last : List Text → List Text
all_but_last [] = []
all_but_last (s ∷ []) = []
all_but_last (s ∷ t ∷ r) = s ∷ all_but_last (t ∷ r)

unfoldable pub basename_of : Text → Text
unfolding path_segments last_or_empty
basename_of path = last_or_empty (path_segments path)

unfoldable pub is_script : Text → Bool
is_script basename = elim (last_index_of basename b'.') [
  | none ↦ false
  | some dot ↦ includes script_extensions (drop (suc dot) basename)
]

unfoldable pub stem_of : Text → Text
stem_of basename = elim (last_index_of basename b'.') [
  | none ↦ basename
  | some dot ↦ take dot basename
]

unfoldable pub is_config_for : Text → Text → Bool
unfolding is_script stem_of
is_config_for basename framework =
    is_script basename && text_eq (stem_of basename) (framework ++ codes ".config")

-- One segment, or two of which the first is `src`.
unfoldable pub is_root_or_src : Text → Bool
unfolding path_segments
is_root_or_src path = elim (path_segments path) [
  | [] ↦ false
  | a ∷ [] ↦ true
  | a ∷ b ∷ [] ↦ text_eq a (codes "src")
  | a ∷ b ∷ c ∷ r ↦ false
]

unfoldable pub has_directory : Text → List Text → Bool
unfolding path_segments all_but_last
has_directory path directories =
    any (λ segment. includes directories segment) (all_but_last (path_segments path))

unfoldable pub is_nextjs_entry_point : Text → Bool
unfolding basename_of is_config_for is_root_or_src has_directory
is_nextjs_entry_point path =
    let basename = basename_of path in
    let stem = stem_of basename in
    if is_config_for basename (codes "next")
    then true
    else if not (is_script basename)
    then false
    else if text_eq stem (codes "middleware") || text_eq stem (codes "instrumentation")
    then is_root_or_src path
    else if includes nextjs_app_router_stems stem
    then has_directory path nextjs_route_directories
    else false

unfoldable pub is_tailwind_entry_point : Text → Bool
unfolding basename_of is_config_for
is_tailwind_entry_point path = is_config_for (basename_of path) (codes "tailwind")

unfoldable pub is_playwright_entry_point : Text → Bool
unfolding basename_of is_config_for
is_playwright_entry_point path =
    let basename = basename_of path in
    let stem = stem_of basename in
    if is_config_for basename (codes "playwright")
    then true
    else if not (is_script basename)
    then false
    else text_eq stem (codes "global-setup") || text_eq stem (codes "global-teardown")

unfoldable pub is_framework_entry_point : Text → Bool
unfolding is_nextjs_entry_point is_tailwind_entry_point is_playwright_entry_point
is_framework_entry_point path =
    is_nextjs_entry_point path || is_tailwind_entry_point path || is_playwright_entry_point path
