-- ===== src/Region.antt =====
-- core/region.go: country codes folded to their alpha-2 form.
pub mod Search
pub mod Table
mod Examples
use yu_clash.Prelude.{
  ℕ, zero, suc, ◌+◌, ◌*◌, ◌/◌, Bool, true, false, not, ◌&&◌, List, [], ◌∷◌, ◌++◌, map, length, take,
  drop, ltb, ◌==◌, if◌then◌else◌,
}
use yu_clash.Text.{Text, bytes, before, is_between, trim_space, upper}

-- Five bytes per entry, sorted by the first three.
unfoldable pub iso3166_packed : Text
iso3166_packed =
    bytes "ABWAWAFGAFAGOAOAIAAIALAAXALBALANDADAREAEARGARARMAMASMASATAAQATFTFATGAGAUSAU"
    ++ bytes "AUTATAZEAZBDIBIBELBEBENBJBESBQBFABFBGDBDBGRBGBHRBHBHSBSBIHBABLMBLBLRBYBLZBZ"
    ++ bytes "BMUBMBOLBOBRABRBRBBBBRNBNBTNBTBVTBVBWABWCAFCFCANCACCKCCCHECHCHLCLCHNCNCIVCI"
    ++ bytes "CMRCMCODCDCOGCGCOKCKCOLCOCOMKMCPVCVCRICRCUBCUCUWCWCXRCXCYMKYCYPCYCZECZDEUDE"
    ++ bytes "DJIDJDMADMDNKDKDOMDODZADZECUECEGYEGERIERESHEHESPESESTEEETHETFINFIFJIFJFLKFK"
    ++ bytes "FRAFRFROFOFSMFMGABGAGBRGBGEOGEGGYGGGHAGHGIBGIGINGNGLPGPGMBGMGNBGWGNQGQGRCGR"
    ++ bytes "GRDGDGRLGLGTMGTGUFGFGUMGUGUYGYHKGHKHMDHMHNDHNHRVHRHTIHTHUNHUIDNIDIMNIMINDIN"
    ++ bytes "IOTIOIRLIEIRNIRIRQIQISLISISRILITAITJAMJMJEYJEJORJOJPNJPKAZKZKENKEKGZKGKHMKH"
    ++ bytes "KIRKIKNAKNKORKRKWTKWLAOLALBNLBLBRLRLBYLYLCALCLIELILKALKLSOLSLTULTLUXLULVALV"
    ++ bytes "MACMOMAFMFMARMAMCOMCMDAMDMDGMGMDVMVMEXMXMHLMHMKDMKMLIMLMLTMTMMRMMMNEMEMNGMN"
    ++ bytes "MNPMPMOZMZMRTMRMSRMSMTQMQMUSMUMWIMWMYSMYMYTYTNAMNANCLNCNERNENFKNFNGANGNICNI"
    ++ bytes "NIUNUNLDNLNORNONPLNPNRUNRNZLNZOMNOMPAKPKPANPAPCNPNPERPEPHLPHPLWPWPNGPGPOLPL"
    ++ bytes "PRIPRPRKKPPRTPTPRYPYPSEPSPYFPFQATQAREUREROURORUSRURWARWSAUSASDNSDSENSNSGPSG"
    ++ bytes "SGSGSSHNSHSJMSJSLBSBSLESLSLVSVSMRSMSOMSOSPMPMSRBRSSSDSSSTPSTSURSRSVKSKSVNSI"
    ++ bytes "SWESESWZSZSXMSXSYCSCSYRSYTCATCTCDTDTGOTGTHATHTJKTJTKLTKTKMTMTLSTLTONTOTTOTT"
    ++ bytes "TUNTNTURTRTUVTVTWNTWTZATZUGAUGUKRUAUMIUMURYUYUSAUSUZBUZVATVAVCTVCVENVEVGBVG"
    ++ bytes "VIRVIVNMVNVUTVUWLFWFWSMWSYEMYEZAFZAZMBZMZWEZW"

-- `isAsciiUpper`.
unfoldable pub is_ascii_upper : Text → Bool
is_ascii_upper [] = true
is_ascii_upper (c ∷ s) = is_between 65 90 c && is_ascii_upper s

-- The alpha-3 code and the alpha-2 code of an entry.
unfoldable pub entry_key : Text → ℕ → Text
entry_key table mid = take 3 (drop (mid * 5) table)

unfoldable pub entry_value : Text → ℕ → Text
entry_value table mid = take 2 (drop (mid * 5 + 3) table)

-- The loop of the binary search. Every round shortens the range, so the length of the first range bounds
-- the rounds.
unfoldable pub search_range : Text → Text → ℕ → ℕ → ℕ → Text
unfolding before entry_key entry_value
search_range table code zero low high = []
search_range table code (suc rounds) low high =
    let mid = (low + high) / 2 in
    let right = search_range table code rounds (mid + 1) high in
    let left = search_range table code rounds low mid in
    if not (ltb low high)
    then []
    else if before (entry_key table mid) code
    then right
    else if before code (entry_key table mid)
    then left
    else entry_value table mid

unfoldable pub search_table : Text → Text → Text
unfolding search_range
search_table table code = let n = length table / 5 in search_range table code n 0 n

-- `normalizeRegion`, once the code is trimmed and folded.
unfoldable pub normalize_folded : Text → Text
unfolding is_ascii_upper search_table iso3166_packed
normalize_folded code =
    if length code == 2
    then (if is_ascii_upper code then code else [])
    else if length code == 3
    then (if is_ascii_upper code then search_table iso3166_packed code else [])
    else []

-- `normalizeRegion`.
unfoldable pub normalize_region : Text → Text
unfolding normalize_folded
normalize_region code = normalize_folded (map upper (trim_space code))
