-- ===== src/Data/Block.antt =====
-- The block and its methods. An `off_t` is a number here: no caller passes a negative offset.
use h_flat.Base.{
  ℕ, ◌+◌, ◌-◌, ◌*◌, max, Bool, true, false, List, [], ◌∷◌, ◌++◌, Str, leb, ltb, eqb, if◌then◌else◌,
  length, take, drop, replicate, Exec, ok, fault, assertion, out_of_range, undefined, ◌>>=◌, ◌>>◌,
  require,
}

-- `std::string::resize`: cut, or fill with zero bytes.
unfoldable pub resize : ℕ → Str → Str
resize n s = take n s ++ replicate (n - length s) 0

-- The result of `s.replace(pos, n, t)` where `pos` is in range.
unfoldable pub overwrite : ℕ → ℕ → Str → Str → Str
overwrite pos n t s = take pos s ++ (t ++ drop (pos + n) s)

-- `s.replace(pos, n, t)`.
unfoldable pub replace : ℕ → ℕ → Str → Str → Exec Str
unfolding overwrite
replace pos n t s = if ltb (length s) pos then fault out_of_range else ok (overwrite pos n t s)

-- `s.replace(pos, n, t, pos2, n2)`.
unfoldable pub replace_from : ℕ → ℕ → Str → ℕ → ℕ → Str → Exec Str
unfolding replace
replace_from pos n t pos2 n2 s =
    if ltb (length t) pos2 then fault out_of_range else replace pos n (take n2 (drop pos2 t)) s

abbrev pub max_block : ℕ
max_block = 1024 * 1024

pub record DataInfo : Type 0 where
  pub key : Str
  pub key_version : Str
  pub d : Str
  pub updates : List (ℕ × ℕ)

unfoldable pub new_data_info : Str → Str → Str → DataInfo
new_data_info key key_version bytes = record {
  key = key;
  key_version = key_version;
  d = bytes;
  updates = [];
}

-- `updateData` reads `size` bytes at `bytes`. It answers with the C result, here always 0: the
-- `resize` before the `replace` keeps the offset in range (`update_data_lem`).
unfoldable pub update_data : Str → ℕ → ℕ → DataInfo → Exec (ℕ × DataInfo)
unfolding resize replace
update_data bytes offset size di = do
  require (leb (offset + size) max_block) assertion
  require (leb size (length bytes)) undefined
  let grown = resize (max (offset + size) (length di.d)) di.d
  caught (replace offset size (take size bytes) grown)
  where
    caught : Exec Str → Exec (ℕ × DataInfo)
    caught (ok d') = ok (0, record di { d = d'; updates = di.updates ++ ((offset, size) ∷ []) })
    caught (fault e) = ok (22, di)

unfoldable pub truncate : ℕ → DataInfo → Exec DataInfo
unfolding resize
truncate offset di = do
  require (leb offset max_block) assertion
  ok (record di { d = resize offset di.d; updates = di.updates ++ ((offset, 0) ∷ []) })

unfoldable pub has_updates : DataInfo → Bool
has_updates di = elim di.updates [ [] ↦ false | u ∷ us ↦ true ]

unfoldable pub forget_updates : DataInfo → DataInfo
forget_updates di = record di { updates = [] }

unfoldable pub set_key_version : Str → DataInfo → DataInfo
set_key_version v di = record di { key_version = v }

-- The loop of `mergeDataChanges`: a region of size 0 stands for a truncation.
unfoldable pub merge_updates : Str → List (ℕ × ℕ) → Str → Exec Str
unfolding replace_from resize
merge_updates d [] fresh = ok fresh
merge_updates d ((first, second) ∷ us) fresh =
    (if eqb second 0
      then ok (resize first fresh)
      else replace_from first second d first second fresh)
    >>= merge_updates d us

unfoldable pub merge_data_changes : Str → DataInfo → Exec DataInfo
unfolding merge_updates resize
merge_data_changes fresh di = do
  merged ← merge_updates di.d di.updates (resize (max (length fresh) (length di.d)) fresh)
  require (leb (length merged) max_block) assertion
  ok (record di { d = merged })
