-- ===== src/Db/Rocks/Backups.antt =====
-- The text of `/backup_info`: src/quitsies/db/rocks.cpp. Each object is written with a comma behind
-- it, and the last comma is overwritten.
use quitsies.Prelude.{
  ℕ, suc, zero, ◌+◌, ◌-◌, Bool, true, false, ◌≡◌, refl, ◌∙◌, ap, List, [], ◌∷◌, ◌++◌, append_assoc,
  append-nil, if◌then◌else◌, length, length-append, arith,
}
use quitsies.Prelude.Int.{ℤ, pos, negsuc}
use quitsies.Text.{Bytes, codes}
use quitsies.Text.Decimal.{print}

-- `rocksdb::BackupInfo`.
pub record BackupInfo : Type 0 where
  pub backup_id : ℕ
  pub timestamp : ℤ
  pub size : ℕ

-- A string stream: its text, and where it writes next.
pub record Stream : Type 0 where
  pub text : Bytes
  pub put_at : ℕ

abbrev drop : ℕ → Bytes → Bytes
drop zero b = b
drop (suc n) [] = []
drop (suc n) (c ∷ b) = drop n b

unfoldable pub overwrite : ℕ → Bytes → Bytes → Bytes
overwrite zero w b = w ++ drop (length w) b
overwrite (suc n) w [] = w
overwrite (suc n) w (c ∷ b) = c ∷ overwrite n w b

-- `<<`.
unfoldable pub write : Stream → Bytes → Stream
unfolding overwrite
write ss w = record { text = overwrite ss.put_at w ss.text; put_at = ss.put_at + length w }

-- `seekp(-1, std::ios_base::end)`.
abbrev pub seek_last : Stream → Stream
seek_last ss = record ss { put_at = length ss.text - 1 }

abbrev pub print_int : ℤ → Bytes
print_int (pos n) = print n
print_int (negsuc n) = b'-' ∷ print (suc n)

-- What the body of the loop writes, up to the brace and the comma.
unfoldable pub info_text : BackupInfo → Bytes
unfolding print
info_text info =
    codes "{\"id\":\""
    ++ (print info.backup_id
        ++ (codes "\""
            ++ (codes ", \"timestamp\":"
                ++ (print_int info.timestamp ++ (codes ", \"size\":" ++ print info.size)))))

unfoldable pub write_infos : List BackupInfo → Stream → Stream
unfolding write info_text
write_infos [] ss = ss
write_infos (info ∷ infos) ss = write_infos infos (write ss (info_text info ++ codes "},"))

abbrev is_empty : List BackupInfo → Bool
is_empty [] = true
is_empty (info ∷ infos) = false

unfoldable pub backup_info_text : List BackupInfo → Bytes
unfolding write_infos write
backup_info_text infos =
    let opened = write (record { text = []; put_at = 0 }) (codes "[") in
    let ss = write_infos infos opened in
    let closing = if is_empty infos then ss else seek_last ss in (write closing (codes "]")).text

-- The objects with a comma between any two.
abbrev pub json_objects : List BackupInfo → Bytes
json_objects [] = []
json_objects (info ∷ []) = info_text info ++ codes "}"
json_objects (info ∷ next ∷ infos) = info_text info ++ (codes "}," ++ json_objects (next ∷ infos))

drop-nil : (n : ℕ) → drop n [] ≡ []
drop-nil zero = refl
drop-nil (suc n) = refl

overwrite-end : (b w : Bytes) → overwrite (length b) w b ≡ b ++ w
unfolding overwrite
overwrite-end [] w = rw (drop-nil (length w), append-nil)
overwrite-end (c ∷ b) w = ap (λ t. c ∷ t) (overwrite-end b w)

overwrite-last : (b : Bytes) (c d : ℕ) → overwrite (length b) (c ∷ []) (b ++ d ∷ []) ≡ b ++ c ∷ []
unfolding overwrite
overwrite-last [] c d = refl
overwrite-last (x ∷ b) c d = ap (λ t. x ∷ t) (overwrite-last b c d)

abbrev at_end : Bytes → Stream
at_end b = record { text = b; put_at = length b }

write-at_end : (b w : Bytes) → write (at_end b) w ≡ at_end (b ++ w)
unfolding write
write-at_end b w = rw (overwrite-end b w, length-append b w)

-- The objects with a comma behind each.
abbrev commas : List BackupInfo → Bytes
commas [] = []
commas (info ∷ infos) = (info_text info ++ codes "},") ++ commas infos

write_infos-at_end :
    (infos : List BackupInfo) (b : Bytes)
    → write_infos infos (at_end b) ≡ at_end (b ++ commas infos)
unfolding write_infos
write_infos-at_end [] b = rw append-nil
write_infos-at_end (info ∷ infos) b =
    ap (write_infos infos) (write-at_end b (info_text info ++ codes "},"))
    ∙ write_infos-at_end infos (b ++ (info_text info ++ codes "},"))
    ∙ ap at_end (append_assoc b (info_text info ++ codes "},") (commas infos))

commas-json :
    (info : BackupInfo) (infos : List BackupInfo)
    → commas (info ∷ infos) ≡ json_objects (info ∷ infos) ++ b',' ∷ []
commas-json info [] = simp (append_assoc, append-nil)
commas-json info (next ∷ infos) = rw (commas-json next infos) (simp (append_assoc))

one_less : (b : Bytes) (d : ℕ) → length (b ++ d ∷ []) - 1 ≡ length b
one_less b d = omega (arith, length-append b (d ∷ []))

write-seek_last :
    (b : Bytes) (d : ℕ)
    → (write (seek_last (at_end (b ++ d ∷ []))) (codes "]")).text ≡ b ++ codes "]"
unfolding write
write-seek_last b d =
    ap (λ n. overwrite n (codes "]") (b ++ d ∷ [])) (one_less b d) ∙ overwrite-last b b']' d

-- The text of `/backup_info` is the array of its objects, with a comma between any two and none
-- behind the last, for any number of backups.
pub backup_info_text-json :
    (infos : List BackupInfo)
    → backup_info_text infos ≡ codes "[" ++ (json_objects infos ++ codes "]")
unfolding backup_info_text
backup_info_text-json [] = refl
backup_info_text-json (info ∷ infos) =
    let body = json_objects (info ∷ infos) in
    ap (λ ss. (write (seek_last ss) (codes "]")).text)
      (write_infos-at_end (info ∷ infos) (codes "[")
        ∙ ap (λ t. at_end (codes "[" ++ t)) (commas-json info infos))
    ∙ write-seek_last (codes "[" ++ body) b','
