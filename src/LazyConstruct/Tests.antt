-- ===== src/LazyConstruct/Tests.antt =====
-- A value that is used three times, and one whose constructor throws.
use uvexec.Base.{ℕ, ◌+◌, ◌≡◌, refl, Option, none, some, ◌==◌, if◌then◌else◌}
use uvexec.LazyConstruct.{threw, undefined, new, to_reference, to_const_reference, destroy}
use uvexec.LazyConstruct.Laws.{used, throwing_constructor}

-- zero cannot be constructed of
abbrev successor : ℕ → Option ℕ
successor n = if n == 0 then none else some (n + 1)

throwing_constructor_example :
    (to_reference successor (new 0) ≡ (threw, used successor 0 none))
    × (to_reference successor (used successor 0 none) ≡ (undefined, used successor 0 none))
    × (to_const_reference (used successor 0 none) ≡ undefined)
    × (destroy (used successor 0 none) ≡ undefined)
throwing_constructor_example = throwing_constructor successor 0 refl
