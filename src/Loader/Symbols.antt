-- ===== src/Loader/Symbols.antt =====
-- app/src/plc_loader.c, `udynlink_external_resolve_symbol`: the symbols that a module may import.
use beremiz4u_c.Common.{
  ◌≡◌, refl, ◌∙◌, ap, List, [], ◌∷◌, Option, none, some, inl, inr, if◌then◌else◌, Bool-cases, arith,
  codes, ◌↔◌,
}
use beremiz4u_c.Uploads.{Bytes, same_bytes}
use beremiz4u_c.Uploads.Bytes.{same_bytes_sound}

-- What a symbol stands for: the functions and variables whose addresses are handed out.
pub data Symbol : Type 0 where
  printf printk rte_log_inf puts putchar memcpy memset log_message current_time : Symbol
  qx0_0_0 qx0_0_1 qx0_0_2 qx0_0_3 qx0_0_4 qx0_0_5 qx0_0_6 qx0_0_7 : Symbol

-- The tests in their order, each with what it answers.
unfoldable pub symbols : List (Bytes × Symbol)
symbols =
    (codes "printf", printf)
    ∷ (codes "printk", printk)
    ∷ (codes "rte_log_inf", rte_log_inf)
    ∷ (codes "puts", puts)
    ∷ (codes "putchar", putchar)
    ∷ (codes "memcpy", memcpy)
    ∷ (codes "memset", memset)
    ∷ (codes "LogMessage", log_message)
    ∷ (codes "__CURRENT_TIME", current_time)
    ∷ (codes "__QX0_0_0", qx0_0_0)
    ∷ (codes "__QX0_0_1", qx0_0_1)
    ∷ (codes "__QX0_0_2", qx0_0_2)
    ∷ (codes "__QX0_0_3", qx0_0_3)
    ∷ (codes "__QX0_0_4", qx0_0_4)
    ∷ (codes "__QX0_0_5", qx0_0_5)
    ∷ (codes "__QX0_0_6", qx0_0_6)
    ∷ (codes "__QX0_0_7", qx0_0_7)
    ∷ []

unfoldable pub resolve_in : Bytes → List (Bytes × Symbol) → Option Symbol
resolve_in name [] = none
resolve_in name ((known, symbol) ∷ rest) =
    let further = resolve_in name rest in if same_bytes name known then some symbol else further

-- None stands for NULL.
unfoldable pub udynlink_external_resolve_symbol : Bytes → Option Symbol
unfolding symbols resolve_in
udynlink_external_resolve_symbol name = resolve_in name symbols

-- The name of each in the C sources of a module.
unfoldable pub name_of : Symbol → Bytes
name_of printf = codes "printf"
name_of printk = codes "printk"
name_of rte_log_inf = codes "rte_log_inf"
name_of puts = codes "puts"
name_of putchar = codes "putchar"
name_of memcpy = codes "memcpy"
name_of memset = codes "memset"
name_of log_message = codes "LogMessage"
name_of current_time = codes "__CURRENT_TIME"
name_of qx0_0_0 = codes "__QX0_0_0"
name_of qx0_0_1 = codes "__QX0_0_1"
name_of qx0_0_2 = codes "__QX0_0_2"
name_of qx0_0_3 = codes "__QX0_0_3"
name_of qx0_0_4 = codes "__QX0_0_4"
name_of qx0_0_5 = codes "__QX0_0_5"
name_of qx0_0_6 = codes "__QX0_0_6"
name_of qx0_0_7 = codes "__QX0_0_7"

resolves : (s : Symbol) → udynlink_external_resolve_symbol (name_of s) ≡ some s
unfolding udynlink_external_resolve_symbol symbols resolve_in name_of
resolves printf = refl
resolves printk = refl
resolves rte_log_inf = refl
resolves puts = refl
resolves putchar = refl
resolves memcpy = refl
resolves memset = refl
resolves log_message = refl
resolves current_time = refl
resolves qx0_0_0 = refl
resolves qx0_0_1 = refl
resolves qx0_0_2 = refl
resolves qx0_0_3 = refl
resolves qx0_0_4 = refl
resolves qx0_0_5 = refl
resolves qx0_0_6 = refl
resolves qx0_0_7 = refl

abbrev AreNamed : List (Bytes × Symbol) → Type 0
AreNamed [] = Unit {0}
AreNamed (entry ∷ rest) = (entry.0 ≡ name_of entry.1) × AreNamed rest

symbols-AreNamed : AreNamed symbols
unfolding symbols name_of
symbols-AreNamed = (
  refl,
  (
    refl,
    (
      refl,
      (
        refl,
        (
          refl,
          (
            refl,
            (
              refl,
              (
                refl,
                (refl, (refl, (refl, (refl, (refl, (refl, (refl, (refl, (refl, tt {0}))))))))),
              ),
            ),
          ),
        ),
      ),
    ),
  ),
)

some_inj : {s t : Symbol} → some s ≡ some t → s ≡ t
some_inj e = ground (arith, e)

resolve_in-AreNamed :
    (name : Bytes) (s : Symbol) (table : List (Bytes × Symbol))
    → AreNamed table
    → resolve_in name table ≡ some s
    → name ≡ name_of s
unfolding resolve_in
resolve_in-AreNamed name s [] named h = absurd (ground (arith, h))
resolve_in-AreNamed name s ((known, symbol) ∷ rest) named h =
    elim (Bool-cases (same_bytes name known)) [
      | inl same ↦
          same_bytes_sound name known same
          ∙ (named.0 ∙ ap name_of (some_inj (ground (arith, h, same))))
      | inr other ↦ resolve_in-AreNamed name s rest named.1 (ground (arith, h, other))
    ]

-- A name is resolved to a symbol exactly if it is the name of that symbol: of two names at most one
-- resolves to it, and every symbol has one.
pub udynlink_external_resolve_symbol-name_of :
    (name : Bytes) (s : Symbol)
    → (udynlink_external_resolve_symbol name ≡ some s) ↔ (name ≡ name_of s)
unfolding udynlink_external_resolve_symbol
udynlink_external_resolve_symbol-name_of name s = (
  λ h. resolve_in-AreNamed name s symbols symbols-AreNamed h,
  λ e. ap udynlink_external_resolve_symbol e ∙ resolves s,
)
