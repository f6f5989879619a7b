-- ===== src/Repack/Target.antt =====
-- The argument of repack names a torrent by its key.
use samogon.Base.{ap, Text, ◌≡◌, ◌≢◌, true, [], ◌∷◌, length, inr, arith}
use samogon.Config.{Config, key_torrent}
use samogon.Config.Keys.{NoSlash, base-key, trim_right-key_torrent}
use samogon.Repack.{extract_infohash, all_hex, is_hex}

all_hex-NoSlash : (h : Text) → all_hex h ≡ true → NoSlash h
unfolding all_hex is_hex
all_hex-NoSlash [] e = tt
all_hex-NoSlash (c ∷ h) e = (ground arith, all_hex-NoSlash h (ground arith))

-- Of the key of a torrent, `extractInfohash` finds the infohash again, for 40 hexadecimal digits.
pub extract_infohash-key_torrent :
    (cfg : Config) (h : Text)
    → all_hex h ≡ true
    → length h ≡ 40
    → extract_infohash (key_torrent cfg h) ≡ inr h
unfolding extract_infohash
extract_infohash-key_torrent cfg h hex len =
    let ne : h ≢ [] = λ e. absurd (omega (arith, len, ap length e)) in
    let plain = all_hex-NoSlash h hex in
    rw (trim_right-key_torrent cfg h plain ne, (base-key cfg h plain ne).1, len, hex)
