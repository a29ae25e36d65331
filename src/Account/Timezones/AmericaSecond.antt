-- ===== src/Account/Timezones/AmericaSecond.antt =====
-- Lines 135 to 209 of the map ianaToPostfix of internal/account/timezone_posix.go.
use fishhub_server.Prelude.{String, List, [], ◌∷◌}

unfoldable pub america_second : List (String × String)
america_second =
    ("America/Jamaica", "EST5")
    ∷ ("America/Juneau", "AKST9AKDT")
    ∷ ("America/Kentucky/Louisville", "EST5EDT")
    ∷ ("America/Kentucky/Monticello", "EST5EDT")
    ∷ ("America/Kralendijk", "AST4")
    ∷ ("America/La_Paz", "<-04>4")
    ∷ ("America/Lima", "<-05>5")
    ∷ ("America/Los_Angeles", "PST8PDT")
    ∷ ("America/Lower_Princes", "AST4")
    ∷ ("America/Maceio", "<-03>3")
    ∷ ("America/Managua", "CST6")
    ∷ ("America/Manaus", "<-04>4")
    ∷ ("America/Marigot", "AST4")
    ∷ ("America/Martinique", "AST4")
    ∷ ("America/Matamoros", "CST6CDT")
    ∷ ("America/Mazatlan", "MST7")
    ∷ ("America/Menominee", "CST6CDT")
    ∷ ("America/Merida", "CST6")
    ∷ ("America/Metlakatla", "AKST9AKDT")
    ∷ ("America/Mexico_City", "CST6")
    ∷ ("America/Miquelon", "<-03>3<-02>")
    ∷ ("America/Moncton", "AST4ADT")
    ∷ ("America/Monterrey", "CST6")
    ∷ ("America/Montevideo", "<-03>3")
    ∷ ("America/Montreal", "EST5EDT")
    ∷ ("America/Montserrat", "AST4")
    ∷ ("America/Nassau", "EST5EDT")
    ∷ ("America/New_York", "EST5EDT")
    ∷ ("America/Nipigon", "EST5EDT")
    ∷ ("America/Nome", "AKST9AKDT")
    ∷ ("America/Noronha", "<-02>2")
    ∷ ("America/North_Dakota/Beulah", "CST6CDT")
    ∷ ("America/North_Dakota/Center", "CST6CDT")
    ∷ ("America/North_Dakota/New_Salem", "CST6CDT")
    ∷ ("America/Nuuk", "<-02>2<-01>")
    ∷ ("America/Ojinaga", "CST6CDT")
    ∷ ("America/Panama", "EST5")
    ∷ ("America/Pangnirtung", "EST5EDT")
    ∷ ("America/Paramaribo", "<-03>3")
    ∷ ("America/Phoenix", "MST7")
    ∷ ("America/Port-au-Prince", "EST5EDT")
    ∷ ("America/Port_of_Spain", "AST4")
    ∷ ("America/Porto_Velho", "<-04>4")
    ∷ ("America/Puerto_Rico", "AST4")
    ∷ ("America/Punta_Arenas", "<-03>3")
    ∷ ("America/Rainy_River", "CST6CDT")
    ∷ ("America/Rankin_Inlet", "CST6CDT")
    ∷ ("America/Recife", "<-03>3")
    ∷ ("America/Regina", "CST6")
    ∷ ("America/Resolute", "CST6CDT")
    ∷ ("America/Rio_Branco", "<-05>5")
    ∷ ("America/Santarem", "<-03>3")
    ∷ ("America/Santiago", "<-04>4<-03>")
    ∷ ("America/Santo_Domingo", "AST4")
    ∷ ("America/Sao_Paulo", "<-03>3")
    ∷ ("America/Scoresbysund", "<-02>2<-01>")
    ∷ ("America/Sitka", "AKST9AKDT")
    ∷ ("America/St_Barthelemy", "AST4")
    ∷ ("America/St_Johns", "NST3:30NDT")
    ∷ ("America/St_Kitts", "AST4")
    ∷ ("America/St_Lucia", "AST4")
    ∷ ("America/St_Thomas", "AST4")
    ∷ ("America/St_Vincent", "AST4")
    ∷ ("America/Swift_Current", "CST6")
    ∷ ("America/Tegucigalpa", "CST6")
    ∷ ("America/Thule", "AST4ADT")
    ∷ ("America/Thunder_Bay", "EST5EDT")
    ∷ ("America/Tijuana", "PST8PDT")
    ∷ ("America/Toronto", "EST5EDT")
    ∷ ("America/Tortola", "AST4")
    ∷ ("America/Vancouver", "PST8PDT")
    ∷ ("America/Whitehorse", "MST7")
    ∷ ("America/Winnipeg", "CST6CDT")
    ∷ ("America/Yakutat", "AKST9AKDT")
    ∷ ("America/Yellowknife", "MST7MDT")
    ∷ []
