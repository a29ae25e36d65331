-- ===== src/Account/Timezones/AmericaFirst.antt =====
-- Lines 61 to 134 of the map ianaToPostfix of internal/account/timezone_posix.go.
use fishhub_server.Prelude.{String, List, [], ◌∷◌}

unfoldable pub america_first : List (String × String)
america_first =
    ("America/Adak", "HST10HDT")
    ∷ ("America/Anchorage", "AKST9AKDT")
    ∷ ("America/Anguilla", "AST4")
    ∷ ("America/Antigua", "AST4")
    ∷ ("America/Araguaina", "<-03>3")
    ∷ ("America/Argentina/Buenos_Aires", "<-03>3")
    ∷ ("America/Argentina/Catamarca", "<-03>3")
    ∷ ("America/Argentina/Cordoba", "<-03>3")
    ∷ ("America/Argentina/Jujuy", "<-03>3")
    ∷ ("America/Argentina/La_Rioja", "<-03>3")
    ∷ ("America/Argentina/Mendoza", "<-03>3")
    ∷ ("America/Argentina/Rio_Gallegos", "<-03>3")
    ∷ ("America/Argentina/Salta", "<-03>3")
    ∷ ("America/Argentina/San_Juan", "<-03>3")
    ∷ ("America/Argentina/San_Luis", "<-03>3")
    ∷ ("America/Argentina/Tucuman", "<-03>3")
    ∷ ("America/Argentina/Ushuaia", "<-03>3")
    ∷ ("America/Aruba", "AST4")
    ∷ ("America/Asuncion", "<-03>3")
    ∷ ("America/Atikokan", "EST5")
    ∷ ("America/Bahia", "<-03>3")
    ∷ ("America/Bahia_Banderas", "CST6")
    ∷ ("America/Barbados", "AST4")
    ∷ ("America/Belem", "<-03>3")
    ∷ ("America/Belize", "CST6")
    ∷ ("America/Blanc-Sablon", "AST4")
    ∷ ("America/Boa_Vista", "<-04>4")
    ∷ ("America/Bogota", "<-05>5")
    ∷ ("America/Boise", "MST7MDT")
    ∷ ("America/Cambridge_Bay", "MST7MDT")
    ∷ ("America/Campo_Grande", "<-04>4")
    ∷ ("America/Cancun", "EST5")
    ∷ ("America/Caracas", "<-04>4")
    ∷ ("America/Cayenne", "<-03>3")
    ∷ ("America/Cayman", "EST5")
    ∷ ("America/Chicago", "CST6CDT")
    ∷ ("America/Chihuahua", "CST6")
    ∷ ("America/Costa_Rica", "CST6")
    ∷ ("America/Creston", "MST7")
    ∷ ("America/Cuiaba", "<-04>4")
    ∷ ("America/Curacao", "AST4")
    ∷ ("America/Danmarkshavn", "GMT0")
    ∷ ("America/Dawson", "MST7")
    ∷ ("America/Dawson_Creek", "MST7")
    ∷ ("America/Denver", "MST7MDT")
    ∷ ("America/Detroit", "EST5EDT")
    ∷ ("America/Dominica", "AST4")
    ∷ ("America/Edmonton", "MST7MDT")
    ∷ ("America/Eirunepe", "<-05>5")
    ∷ ("America/El_Salvador", "CST6")
    ∷ ("America/Fortaleza", "<-03>3")
    ∷ ("America/Fort_Nelson", "MST7")
    ∷ ("America/Glace_Bay", "AST4ADT")
    ∷ ("America/Godthab", "<-02>2<-01>")
    ∷ ("America/Goose_Bay", "AST4ADT")
    ∷ ("America/Grand_Turk", "EST5EDT")
    ∷ ("America/Grenada", "AST4")
    ∷ ("America/Guadeloupe", "AST4")
    ∷ ("America/Guatemala", "CST6")
    ∷ ("America/Guayaquil", "<-05>5")
    ∷ ("America/Guyana", "<-04>4")
    ∷ ("America/Halifax", "AST4ADT")
    ∷ ("America/Havana", "CST5CDT")
    ∷ ("America/Hermosillo", "MST7")
    ∷ ("America/Indiana/Indianapolis", "EST5EDT")
    ∷ ("America/Indiana/Knox", "CST6CDT")
    ∷ ("America/Indiana/Marengo", "EST5EDT")
    ∷ ("America/Indiana/Petersburg", "EST5EDT")
    ∷ ("America/Indiana/Tell_City", "CST6CDT")
    ∷ ("America/Indiana/Vevay", "EST5EDT")
    ∷ ("America/Indiana/Vincennes", "EST5EDT")
    ∷ ("America/Indiana/Winamac", "EST5EDT")
    ∷ ("America/Inuvik", "MST7MDT")
    ∷ ("America/Iqaluit", "EST5EDT")
    ∷ []
