-- ===== src/Admin/Printing.antt =====
-- clawfs/admin.py: what the commands print.
use my_test_bot_repo.Prelude.{
  ℕ, zero, suc, ◌-◌, Str, Bool, true, false, Option, none, some, List, [], ◌∷◌, ◌++◌, length, codes,
}
use my_test_bot_repo.Prelude.Int.{ℤ, pos, negsuc}
use my_test_bot_repo.Text.Decimal.{decimal, decimal_ℤ}
use my_test_bot_repo.Prelude.Table.{Table}
use my_test_bot_repo.Text.{split, stripped}
use my_test_bot_repo.Db.{Tenant}
use my_test_bot_repo.Core.Tenants.{comma}
use my_test_bot_repo.Core.Quota.{Usage}
use my_test_bot_repo.Admin.Sizes.{Floats, fmt_size}

-- The exit status, and the lines on standard output and standard error.
pub record Output : Type 0 where
  pub status : ℕ
  pub out : List Str
  pub err_out : List Str

abbrev pub printed : List Str → Output
printed lines = record { status = 0; out = lines; err_out = [] }

abbrev pub failed : Str → Output
failed line = record { status = 1; out = []; err_out = line ∷ [] }

-- `n or '∞'`
abbrev pub or_infinity : Option ℤ → Str
or_infinity none = codes "∞"
or_infinity (some (pos zero)) = codes "∞"
or_infinity (some (pos (suc n))) = decimal (suc n)
or_infinity (some (negsuc n)) = decimal_ℤ (negsuc n)

abbrev pub spaces : ℕ → Str
spaces zero = []
spaces (suc n) = 32 ∷ spaces n

-- `f"{s:<w}"`
abbrev pub pad : ℕ → Str → Str
pad w s = s ++ spaces (w - length s)

abbrev pub show_option : Option ℤ → Str
show_option none = codes "None"
show_option (some n) = decimal_ℤ n

abbrev pub show_bool : Bool → Str
show_bool true = codes "True"
show_bool false = codes "False"

-- The `repr` of the dictionary that `get_usage` returns.
unfoldable pub show_usage : (Str → Str) → Usage → Str
show_usage repr u =
    codes "{'tenant_id': "
    ++ (repr u.tenant_id
        ++ (codes ", 'used_bytes': "
            ++ (decimal u.used_bytes
                ++ (codes ", 'used_objects': "
                    ++ (decimal u.used_objects
                        ++ (codes ", 'max_bytes': "
                            ++ (show_option u.max_bytes
                                ++ (codes ", 'max_objects': "
                                    ++ (show_option u.max_objects
                                        ++ (codes ", 'unmanaged': "
                                            ++ (show_bool u.unmanaged ++ codes "}")))))))))))

module _ (K : Floats) where
  -- A line of `tenant list`.
  abbrev pub tenant_line : Str × Tenant → Str
  tenant_line (id, t) =
      pad 20 id
      ++ (32
          ∷ (pad 20 t.name
              ++ (32
                  ∷ (pad 14 (fmt_size K (some (pos t.used_bytes)))
                      ++ (32
                          ∷ (pad 14 (fmt_size K t.max_bytes)
                              ++ (32
                                  ∷ (decimal t.used_objects
                                      ++ (47
                                          ∷ (pad 6 (or_infinity t.max_objects)
                                              ++ (32
                                                  ∷ pad 6 (
                                                      decimal (
                                                        length (
                                                          stripped
                                                            (split comma t.tokens_csv)))))))))))))))

  abbrev pub tenant_lines : Table Str Tenant → List Str
  tenant_lines [] = []
  tenant_lines ((id, t) ∷ rows) = tenant_line (id, t) ∷ tenant_lines rows

  abbrev header : Str
  header =
      pad 20 (codes "ID")
      ++ (32
          ∷ (pad 20 (codes "NAME")
              ++ (32
                  ∷ (pad 14 (codes "USED")
                      ++ (32
                          ∷ (pad 14 (codes "QUOTA")
                              ++ (32
                                  ∷ (pad 10 (codes "OBJECTS")
                                      ++ (32 ∷ pad 6 (codes "TOKENS"))))))))))

  abbrev pub tenants_listed : Table Str Tenant → Output
  tenants_listed [] = printed (codes "(no tenants)" ∷ [])
  tenants_listed (row ∷ rows) = printed (header ∷ tenant_lines (row ∷ rows))
