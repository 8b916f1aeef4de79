-- ===== src/Mm/Share.antt =====
-- MmpReleasePage: a page is free again with its last reference.
use ntx_preview.Base.{ℕ, ◌-◌, update}
use ntx_preview.Mm.{Pages}

-- One reference less.
abbrev fewer : ℕ → Pages → Pages
fewer page mm = record mm {
  page_ref_count = update mm.page_ref_count page (mm.page_ref_count page - 1);
}
