-- ===== src/Interp/Special/Numbers.antt =====
-- The numbers of the special-purpose registers (arch_defns.h).
use mr_iss.Base.{ℕ, List, [], ◌∷◌}

abbrev pub spr_ctr : ℕ
spr_ctr = 9

abbrev pub spr_lr : ℕ
spr_lr = 8

abbrev pub spr_pvr : ℕ
spr_pvr = 287

abbrev pub spr_tb : ℕ
spr_tb = 268

abbrev pub spr_tbu : ℕ
spr_tbu = 269

abbrev pub spr_xer : ℕ
spr_xer = 1

abbrev pub spr_tb_w : ℕ
spr_tb_w = 284

abbrev pub spr_tbu_w : ℕ
spr_tbu_w = 285

-- `SPR_DBAT0U` to `SPR_DBAT7U`.
abbrev pub dbat_uppers : List ℕ
dbat_uppers = 536 ∷ 538 ∷ 540 ∷ 542 ∷ 568 ∷ 570 ∷ 572 ∷ 574 ∷ []

-- `SPR_DBAT0L` to `SPR_DBAT7L`.
abbrev pub dbat_lowers : List ℕ
dbat_lowers = 537 ∷ 539 ∷ 541 ∷ 543 ∷ 569 ∷ 571 ∷ 573 ∷ 575 ∷ []

-- `SPR_IBAT0U` to `SPR_IBAT7U`.
abbrev pub ibat_uppers : List ℕ
ibat_uppers = 528 ∷ 530 ∷ 532 ∷ 534 ∷ 560 ∷ 562 ∷ 564 ∷ 566 ∷ []

-- `SPR_IBAT0L` to `SPR_IBAT7L`.
abbrev pub ibat_lowers : List ℕ
ibat_lowers = 529 ∷ 531 ∷ 533 ∷ 535 ∷ 561 ∷ 563 ∷ 565 ∷ 567 ∷ []

abbrev pub spr_dar : ℕ
spr_dar = 19

abbrev pub spr_dec : ℕ
spr_dec = 22

abbrev pub spr_dsisr : ℕ
spr_dsisr = 18

abbrev pub spr_sdr1 : ℕ
spr_sdr1 = 25

abbrev pub spr_srr0 : ℕ
spr_srr0 = 26

abbrev pub spr_srr1 : ℕ
spr_srr1 = 27

abbrev pub spr_sprg0 : ℕ
spr_sprg0 = 272

abbrev pub spr_sprg1 : ℕ
spr_sprg1 = 273

abbrev pub spr_sprg2 : ℕ
spr_sprg2 = 274

abbrev pub spr_sprg3 : ℕ
spr_sprg3 = 275

abbrev pub spr_hid0 : ℕ
spr_hid0 = 1008

abbrev pub spr_hid1 : ℕ
spr_hid1 = 1009

abbrev pub spr_debug : ℕ
spr_debug = 1023

abbrev pub spr_dc_inv_set : ℕ
spr_dc_inv_set = 1022

abbrev pub spr_ic_inv_set : ℕ
spr_ic_inv_set = 1021

abbrev pub spr_pir : ℕ
spr_pir = 1023

abbrev pub spr_dabr : ℕ
spr_dabr = 1013
