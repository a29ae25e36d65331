-- ===== src/Account/Timezones/EuropeToUtc.antt =====
-- Lines 361 to 470 of the map ianaToPostfix of internal/account/timezone_posix.go.
use fishhub_server.Prelude.{String, List, [], ◌∷◌}

unfoldable pub europe_to_utc : List (String × String)
europe_to_utc =
    ("Europe/Amsterdam", "CET-1CEST")
    ∷ ("Europe/Andorra", "CET-1CEST")
    ∷ ("Europe/Astrakhan", "<+04>-4")
    ∷ ("Europe/Athens", "EET-2EEST")
    ∷ ("Europe/Belgrade", "CET-1CEST")
    ∷ ("Europe/Berlin", "CET-1CEST")
    ∷ ("Europe/Bratislava", "CET-1CEST")
    ∷ ("Europe/Brussels", "CET-1CEST")
    ∷ ("Europe/Bucharest", "EET-2EEST")
    ∷ ("Europe/Budapest", "CET-1CEST")
    ∷ ("Europe/Busingen", "CET-1CEST")
    ∷ ("Europe/Chisinau", "EET-2EEST")
    ∷ ("Europe/Copenhagen", "CET-1CEST")
    ∷ ("Europe/Dublin", "IST-1GMT0")
    ∷ ("Europe/Gibraltar", "CET-1CEST")
    ∷ ("Europe/Guernsey", "GMT0BST")
    ∷ ("Europe/Helsinki", "EET-2EEST")
    ∷ ("Europe/Isle_of_Man", "GMT0BST")
    ∷ ("Europe/Istanbul", "<+03>-3")
    ∷ ("Europe/Jersey", "GMT0BST")
    ∷ ("Europe/Kaliningrad", "EET-2")
    ∷ ("Europe/Kiev", "EET-2EEST")
    ∷ ("Europe/Kirov", "MSK-3")
    ∷ ("Europe/Lisbon", "WET0WEST")
    ∷ ("Europe/Ljubljana", "CET-1CEST")
    ∷ ("Europe/London", "GMT0BST")
    ∷ ("Europe/Luxembourg", "CET-1CEST")
    ∷ ("Europe/Madrid", "CET-1CEST")
    ∷ ("Europe/Malta", "CET-1CEST")
    ∷ ("Europe/Mariehamn", "EET-2EEST")
    ∷ ("Europe/Minsk", "<+03>-3")
    ∷ ("Europe/Monaco", "CET-1CEST")
    ∷ ("Europe/Moscow", "MSK-3")
    ∷ ("Europe/Oslo", "CET-1CEST")
    ∷ ("Europe/Paris", "CET-1CEST")
    ∷ ("Europe/Podgorica", "CET-1CEST")
    ∷ ("Europe/Prague", "CET-1CEST")
    ∷ ("Europe/Riga", "EET-2EEST")
    ∷ ("Europe/Rome", "CET-1CEST")
    ∷ ("Europe/Samara", "<+04>-4")
    ∷ ("Europe/San_Marino", "CET-1CEST")
    ∷ ("Europe/Sarajevo", "CET-1CEST")
    ∷ ("Europe/Saratov", "<+04>-4")
    ∷ ("Europe/Simferopol", "MSK-3")
    ∷ ("Europe/Skopje", "CET-1CEST")
    ∷ ("Europe/Sofia", "EET-2EEST")
    ∷ ("Europe/Stockholm", "CET-1CEST")
    ∷ ("Europe/Tallinn", "EET-2EEST")
    ∷ ("Europe/Tirane", "CET-1CEST")
    ∷ ("Europe/Ulyanovsk", "<+04>-4")
    ∷ ("Europe/Uzhgorod", "EET-2EEST")
    ∷ ("Europe/Vaduz", "CET-1CEST")
    ∷ ("Europe/Vatican", "CET-1CEST")
    ∷ ("Europe/Vienna", "CET-1CEST")
    ∷ ("Europe/Vilnius", "EET-2EEST")
    ∷ ("Europe/Volgograd", "MSK-3")
    ∷ ("Europe/Warsaw", "CET-1CEST")
    ∷ ("Europe/Zagreb", "CET-1CEST")
    ∷ ("Europe/Zaporozhye", "EET-2EEST")
    ∷ ("Europe/Zurich", "CET-1CEST")
    ∷ ("Indian/Antananarivo", "EAT-3")
    ∷ ("Indian/Chagos", "<+06>-6")
    ∷ ("Indian/Christmas", "<+07>-7")
    ∷ ("Indian/Cocos", "<+0630>-6:30")
    ∷ ("Indian/Comoro", "EAT-3")
    ∷ ("Indian/Kerguelen", "<+05>-5")
    ∷ ("Indian/Mahe", "<+04>-4")
    ∷ ("Indian/Maldives", "<+05>-5")
    ∷ ("Indian/Mauritius", "<+04>-4")
    ∷ ("Indian/Mayotte", "EAT-3")
    ∷ ("Indian/Reunion", "<+04>-4")
    ∷ ("Pacific/Apia", "<+13>-13")
    ∷ ("Pacific/Auckland", "NZST-12NZDT")
    ∷ ("Pacific/Bougainville", "<+11>-11")
    ∷ ("Pacific/Chatham", "<+1245>-12:45<+1345>")
    ∷ ("Pacific/Chuuk", "<+10>-10")
    ∷ ("Pacific/Easter", "<-06>6<-05>")
    ∷ ("Pacific/Efate", "<+11>-11")
    ∷ ("Pacific/Enderbury", "<+13>-13")
    ∷ ("Pacific/Fakaofo", "<+13>-13")
    ∷ ("Pacific/Fiji", "<+12>-12")
    ∷ ("Pacific/Funafuti", "<+12>-12")
    ∷ ("Pacific/Galapagos", "<-06>6")
    ∷ ("Pacific/Gambier", "<-09>9")
    ∷ ("Pacific/Guadalcanal", "<+11>-11")
    ∷ ("Pacific/Guam", "ChST-10")
    ∷ ("Pacific/Honolulu", "HST10")
    ∷ ("Pacific/Kiritimati", "<+14>-14")
    ∷ ("Pacific/Kosrae", "<+11>-11")
    ∷ ("Pacific/Kwajalein", "<+12>-12")
    ∷ ("Pacific/Majuro", "<+12>-12")
    ∷ ("Pacific/Marquesas", "<-0930>9:30")
    ∷ ("Pacific/Midway", "SST11")
    ∷ ("Pacific/Nauru", "<+12>-12")
    ∷ ("Pacific/Niue", "<-11>11")
    ∷ ("Pacific/Norfolk", "<+11>-11<+12>")
    ∷ ("Pacific/Noumea", "<+11>-11")
    ∷ ("Pacific/Pago_Pago", "SST11")
    ∷ ("Pacific/Palau", "<+09>-9")
    ∷ ("Pacific/Pitcairn", "<-08>8")
    ∷ ("Pacific/Pohnpei", "<+11>-11")
    ∷ ("Pacific/Port_Moresby", "<+10>-10")
    ∷ ("Pacific/Rarotonga", "<-10>10")
    ∷ ("Pacific/Saipan", "ChST-10")
    ∷ ("Pacific/Tahiti", "<-10>10")
    ∷ ("Pacific/Tarawa", "<+12>-12")
    ∷ ("Pacific/Tongatapu", "<+13>-13")
    ∷ ("Pacific/Wake", "<+12>-12")
    ∷ ("Pacific/Wallis", "<+12>-12")
    ∷ ("UTC", "UTC0")
    ∷ []
