-- ===== src/Checker/Effects.antt =====
-- comp/src/parse.rs: what the helpers of the runtime take from the stack and put on it, and how they
-- call back the labels they are given.
use nmerkar.Base.{
  ℕ, List, [], ◌∷◌, Option, none, some, Text, codes, contains, words, lookup, if◌then◌else◌,
}
use nmerkar.Base.Int.{ℤ, pos, negsuc}

-- The first arm of a `match` that lists the name; an arm's names stand in one text.
unfoldable pub first_arm : {V : Type 0} → Text → List (Text × V) → Option V
unfolding contains words
first_arm h [] = none
first_arm h ((names, v) ∷ arms) = if contains (words names) h then some v else first_arm h arms

-- The cells taken and the cells put, arm by arm.
abbrev effect_arms : List (Text × (ℕ × ℕ))
effect_arms =
    (
      codes
          "op_add op_sub op_mul op_and op_pow op_div op_rem op_eq op_seq op_sne op_lt op_gt op_lte op_gte op_or op_xor op_shl op_shr",
      (2, 1),
    )
    ∷ (codes "op_sqrt op_inc op_dec op_not op_bnot", (1, 1))
    ∷ (codes "op_get op_getq op_orelse op_has op_contains", (2, 1))
    ∷ (codes "op_apply", (2, 1))
    ∷ (codes "op_weave_run op_wchk", (1, 1))
    ∷ (codes "op_set", (3, 0))
    ∷ (codes "op_append op_push", (2, 1))
    ∷ (codes "op_lpop", (1, 1))
    ∷ (codes "op_del", (2, 0))
    ∷ (codes "op_len op_typeof op_clone op_keys op_sort op_unique op_flat", (1, 1))
    ∷ (codes "op_range op_filter op_some op_every op_chunk", (2, 1))
    ∷ (codes "op_dict op_list op_caps", (0, 1))
    ∷ (codes "op_arr op_tensor", (2, 1))
    ∷ (codes "op_cast", (2, 1))
    ∷ (codes "op_dcast", (2, 1))
    ∷ (codes "op_dbg", (0, 0))
    ∷ (codes "op_check", (1, 0))
    ∷ (codes "op_timer", (0, 1))
    ∷ (codes "op_memstats", (0, 1))
    ∷ (codes "op_vemax op_vemin", (2, 1))
    ∷ (codes "op_veq op_vlt op_vgt op_vge op_vle", (2, 1))
    ∷ (codes "op_vand op_vor", (2, 1))
    ∷ (codes "op_vnot op_vcount op_vsum op_vmean op_vmin op_vmax op_vargsort", (1, 1))
    ∷ (codes "op_vgather op_vwhere op_vsearchsorted", (2, 1))
    ∷ (codes "op_vmap", (2, 1))
    ∷ (codes "op_vfold", (3, 1))
    ∷ (codes "op_try", (1, 1))
    ∷ (codes "op_vget", (2, 1))
    ∷ (codes "op_vset", (3, 0))
    ∷ (codes "op_cat op_join op_slice op_starts op_ends op_find op_rsplit", (2, 1))
    ∷ (codes "op_replace op_repl", (3, 1))
    ∷ (codes "op_trim op_up op_down", (1, 1))
    ∷ (codes "op_glob", (2, 1))
    ∷ (codes "op_slurp op_mmap", (1, 1))
    ∷ (codes "op_spit", (2, 0))
    ∷ (codes "op_femit", (2, 1))
    ∷ (codes "op_feach", (2, 0))
    ∷ (codes "op_ffold", (3, 1))
    ∷ (codes "op_fsplit", (4, 1))
    ∷ (codes "op_fget op_fatoi op_fatof op_fbyte", (1, 1))
    ∷ (codes "op_fsget", (2, 1))
    ∷ (codes "op_addto", (3, 0))
    ∷ (codes "op_faddto op_finc", (2, 0))
    ∷ (codes "op_count", (1, 1))
    ∷ (codes "op_argv op_hasargs op_now", (0, 1))
    ∷ (codes "op_argi", (1, 1))
    ∷ (codes "op_sh", (1, 3))
    ∷ (codes "op_shp op_exec", (1, 1))
    ∷ (codes "op_time op_timef", (2, 1))
    ∷ (codes "op_bloom", (1, 1))
    ∷ (codes "op_badd", (2, 0))
    ∷ (codes "op_btest", (2, 1))
    ∷ (codes "op_json op_unjson op_iter op_next op_collect", (1, 1))
    ∷ (codes "op_imap op_ifilter", (2, 1))
    ∷ (codes "op_atoi op_atof op_itoa op_ftoa", (1, 1))
    ∷ (codes "op_chan op_atom op_aget op_deq op_spawn", (1, 1))
    ∷ (codes "op_enq", (2, 0))
    ∷ (codes "op_close", (1, 0))
    ∷ (codes "op_aset op_aadd", (2, 0))
    ∷ (codes "op_cas", (3, 1))
    ∷ (codes "op_buf op_malloc op_sizeof", (1, 1))
    ∷ (codes "op_free", (1, 0))
    ∷ (codes "op_bufcopy op_storex", (3, 0))
    ∷ (codes "op_loadx", (1, 1))
    ∷ (codes "op_print", (1, 0))
    ∷ (codes "op_scan", (1, 1))
    ∷ (codes "op_cap op_transpose", (1, 1))
    ∷ (codes "op_shutdown", (0, 0))
    ∷ (codes "op_drop", (1, 0))
    ∷ (codes "op_wfind", (3, 1))
    ∷ (codes "op_bfs op_dfs", (2, 1))
    ∷ (codes "op_rangefold", (3, 1))
    ∷ []

-- `helper_effect`
unfoldable pub helper_effect : Text → Option (ℕ × ℕ)
unfolding first_arm
helper_effect h = first_arm h effect_arms

-- A slot is the place of the label below the top of the stack, with the cells that its body finds on
-- it, or -1 for a body on a stack of its own.
abbrev callback_arms : List (Text × (ℕ × List (ℕ × ℤ)))
callback_arms =
    (
      codes
          "op_filter op_some op_every op_group op_agg op_imap op_ifilter op_bfs op_dfs op_feach op_vmap",
      (2, (0, pos 1) ∷ []),
    )
    ∷ (codes "op_vfold op_ffold op_rangefold", (3, (0, pos 2) ∷ []))
    ∷ (codes "op_fsplit", (4, (0, pos 2) ∷ []))
    ∷ (codes "op_wfind", (3, (0, pos 1) ∷ (1, pos 1) ∷ []))
    ∷ (codes "op_try", (1, (0, pos 0) ∷ []))
    ∷ (codes "op_spawn", (1, (0, negsuc 0) ∷ []))
    ∷ []

-- `callback_slots`
unfoldable pub callback_slots : Text → Option (ℕ × List (ℕ × ℤ))
unfolding first_arm
callback_slots h = first_arm h callback_arms

abbrev mnem_arms : List (Text × Text)
mnem_arms =
    (codes "op_filter", codes "filter")
    ∷ (codes "op_some", codes "any")
    ∷ (codes "op_every", codes "all")
    ∷ (codes "op_group", codes "group_by")
    ∷ (codes "op_agg", codes "aggregate")
    ∷ (codes "op_imap", codes "iter_map")
    ∷ (codes "op_ifilter", codes "iter_filter")
    ∷ (codes "op_bfs", codes "bfs")
    ∷ (codes "op_dfs", codes "dfs")
    ∷ (codes "op_feach", codes "file_each_line")
    ∷ (codes "op_ffold", codes "file_fold_lines")
    ∷ (codes "op_fsplit", codes "file_split_lines")
    ∷ (codes "op_vmap", codes "array_map")
    ∷ (codes "op_vfold", codes "array_reduce")
    ∷ (codes "op_rangefold", codes "range_reduce")
    ∷ (codes "op_wfind", codes "find_first")
    ∷ (codes "op_try", codes "try")
    ∷ (codes "op_spawn", codes "spawn")
    ∷ []

abbrev pub or_text : Text → Option Text → Text
or_text d none = d
or_text d (some t) = t

-- `callback_mnem`
unfoldable pub callback_mnem : Text → Text
unfolding lookup
callback_mnem h = or_text h (lookup h mnem_arms)
