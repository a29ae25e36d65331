-- ===== src/Account/Timezones/AntarcticaToEtc.antt =====
-- Lines 210 to 360 of the map ianaToPostfix of internal/account/timezone_posix.go.
use fishhub_server.Prelude.{String, List, [], ◌∷◌}

unfoldable pub antarctica_to_etc : List (String × String)
antarctica_to_etc =
    ("Antarctica/Casey", "<+08>-8")
    ∷ ("Antarctica/Davis", "<+07>-7")
    ∷ ("Antarctica/DumontDUrville", "<+10>-10")
    ∷ ("Antarctica/Macquarie", "AEST-10AEDT")
    ∷ ("Antarctica/Mawson", "<+05>-5")
    ∷ ("Antarctica/McMurdo", "NZST-12NZDT")
    ∷ ("Antarctica/Palmer", "<-03>3")
    ∷ ("Antarctica/Rothera", "<-03>3")
    ∷ ("Antarctica/Syowa", "<+03>-3")
    ∷ ("Antarctica/Troll", "<+00>0<+02>-2")
    ∷ ("Antarctica/Vostok", "<+05>-5")
    ∷ ("Arctic/Longyearbyen", "CET-1CEST")
    ∷ ("Asia/Aden", "<+03>-3")
    ∷ ("Asia/Almaty", "<+05>-5")
    ∷ ("Asia/Amman", "<+03>-3")
    ∷ ("Asia/Anadyr", "<+12>-12")
    ∷ ("Asia/Aqtau", "<+05>-5")
    ∷ ("Asia/Aqtobe", "<+05>-5")
    ∷ ("Asia/Ashgabat", "<+05>-5")
    ∷ ("Asia/Atyrau", "<+05>-5")
    ∷ ("Asia/Baghdad", "<+03>-3")
    ∷ ("Asia/Bahrain", "<+03>-3")
    ∷ ("Asia/Baku", "<+04>-4")
    ∷ ("Asia/Bangkok", "<+07>-7")
    ∷ ("Asia/Barnaul", "<+07>-7")
    ∷ ("Asia/Beirut", "EET-2EEST")
    ∷ ("Asia/Bishkek", "<+06>-6")
    ∷ ("Asia/Brunei", "<+08>-8")
    ∷ ("Asia/Chita", "<+09>-9")
    ∷ ("Asia/Choibalsan", "<+08>-8")
    ∷ ("Asia/Colombo", "<+0530>-5:30")
    ∷ ("Asia/Damascus", "<+03>-3")
    ∷ ("Asia/Dhaka", "<+06>-6")
    ∷ ("Asia/Dili", "<+09>-9")
    ∷ ("Asia/Dubai", "<+04>-4")
    ∷ ("Asia/Dushanbe", "<+05>-5")
    ∷ ("Asia/Famagusta", "EET-2EEST")
    ∷ ("Asia/Gaza", "EET-2EEST")
    ∷ ("Asia/Hebron", "EET-2EEST")
    ∷ ("Asia/Ho_Chi_Minh", "<+07>-7")
    ∷ ("Asia/Hong_Kong", "HKT-8")
    ∷ ("Asia/Hovd", "<+07>-7")
    ∷ ("Asia/Irkutsk", "<+08>-8")
    ∷ ("Asia/Jakarta", "WIB-7")
    ∷ ("Asia/Jayapura", "WIT-9")
    ∷ ("Asia/Jerusalem", "IST-2IDT")
    ∷ ("Asia/Kabul", "<+0430>-4:30")
    ∷ ("Asia/Kamchatka", "<+12>-12")
    ∷ ("Asia/Karachi", "PKT-5")
    ∷ ("Asia/Kathmandu", "<+0545>-5:45")
    ∷ ("Asia/Khandyga", "<+09>-9")
    ∷ ("Asia/Kolkata", "IST-5:30")
    ∷ ("Asia/Krasnoyarsk", "<+07>-7")
    ∷ ("Asia/Kuala_Lumpur", "<+08>-8")
    ∷ ("Asia/Kuching", "<+08>-8")
    ∷ ("Asia/Kuwait", "<+03>-3")
    ∷ ("Asia/Macau", "CST-8")
    ∷ ("Asia/Magadan", "<+11>-11")
    ∷ ("Asia/Makassar", "WITA-8")
    ∷ ("Asia/Manila", "PST-8")
    ∷ ("Asia/Muscat", "<+04>-4")
    ∷ ("Asia/Nicosia", "EET-2EEST")
    ∷ ("Asia/Novokuznetsk", "<+07>-7")
    ∷ ("Asia/Novosibirsk", "<+07>-7")
    ∷ ("Asia/Omsk", "<+06>-6")
    ∷ ("Asia/Oral", "<+05>-5")
    ∷ ("Asia/Phnom_Penh", "<+07>-7")
    ∷ ("Asia/Pontianak", "WIB-7")
    ∷ ("Asia/Pyongyang", "KST-9")
    ∷ ("Asia/Qatar", "<+03>-3")
    ∷ ("Asia/Qyzylorda", "<+05>-5")
    ∷ ("Asia/Riyadh", "<+03>-3")
    ∷ ("Asia/Sakhalin", "<+11>-11")
    ∷ ("Asia/Samarkand", "<+05>-5")
    ∷ ("Asia/Seoul", "KST-9")
    ∷ ("Asia/Shanghai", "CST-8")
    ∷ ("Asia/Singapore", "<+08>-8")
    ∷ ("Asia/Srednekolymsk", "<+11>-11")
    ∷ ("Asia/Taipei", "CST-8")
    ∷ ("Asia/Tashkent", "<+05>-5")
    ∷ ("Asia/Tbilisi", "<+04>-4")
    ∷ ("Asia/Tehran", "<+0330>-3:30")
    ∷ ("Asia/Thimphu", "<+06>-6")
    ∷ ("Asia/Tokyo", "JST-9")
    ∷ ("Asia/Tomsk", "<+07>-7")
    ∷ ("Asia/Ulaanbaatar", "<+08>-8")
    ∷ ("Asia/Urumqi", "<+06>-6")
    ∷ ("Asia/Ust-Nera", "<+10>-10")
    ∷ ("Asia/Vientiane", "<+07>-7")
    ∷ ("Asia/Vladivostok", "<+10>-10")
    ∷ ("Asia/Yakutsk", "<+09>-9")
    ∷ ("Asia/Yangon", "<+0630>-6:30")
    ∷ ("Asia/Yekaterinburg", "<+05>-5")
    ∷ ("Asia/Yerevan", "<+04>-4")
    ∷ ("Atlantic/Azores", "<-01>1<+00>")
    ∷ ("Atlantic/Bermuda", "AST4ADT")
    ∷ ("Atlantic/Canary", "WET0WEST")
    ∷ ("Atlantic/Cape_Verde", "<-01>1")
    ∷ ("Atlantic/Faroe", "WET0WEST")
    ∷ ("Atlantic/Madeira", "WET0WEST")
    ∷ ("Atlantic/Reykjavik", "GMT0")
    ∷ ("Atlantic/South_Georgia", "<-02>2")
    ∷ ("Atlantic/Stanley", "<-03>3")
    ∷ ("Atlantic/St_Helena", "GMT0")
    ∷ ("Australia/Adelaide", "ACST-9:30ACDT")
    ∷ ("Australia/Brisbane", "AEST-10")
    ∷ ("Australia/Broken_Hill", "ACST-9:30ACDT")
    ∷ ("Australia/Currie", "AEST-10AEDT")
    ∷ ("Australia/Darwin", "ACST-9:30")
    ∷ ("Australia/Eucla", "<+0845>-8:45")
    ∷ ("Australia/Hobart", "AEST-10AEDT")
    ∷ ("Australia/Lindeman", "AEST-10")
    ∷ ("Australia/Lord_Howe", "<+1030>-10:30<+11>-11")
    ∷ ("Australia/Melbourne", "AEST-10AEDT")
    ∷ ("Australia/Perth", "AWST-8")
    ∷ ("Australia/Sydney", "AEST-10AEDT")
    ∷ ("Etc/GMT", "GMT0")
    ∷ ("Etc/GMT-0", "GMT0")
    ∷ ("Etc/GMT-1", "<+01>-1")
    ∷ ("Etc/GMT-2", "<+02>-2")
    ∷ ("Etc/GMT-3", "<+03>-3")
    ∷ ("Etc/GMT-4", "<+04>-4")
    ∷ ("Etc/GMT-5", "<+05>-5")
    ∷ ("Etc/GMT-6", "<+06>-6")
    ∷ ("Etc/GMT-7", "<+07>-7")
    ∷ ("Etc/GMT-8", "<+08>-8")
    ∷ ("Etc/GMT-9", "<+09>-9")
    ∷ ("Etc/GMT-10", "<+10>-10")
    ∷ ("Etc/GMT-11", "<+11>-11")
    ∷ ("Etc/GMT-12", "<+12>-12")
    ∷ ("Etc/GMT-13", "<+13>-13")
    ∷ ("Etc/GMT-14", "<+14>-14")
    ∷ ("Etc/GMT0", "GMT0")
    ∷ ("Etc/GMT+0", "GMT0")
    ∷ ("Etc/GMT+1", "<-01>1")
    ∷ ("Etc/GMT+2", "<-02>2")
    ∷ ("Etc/GMT+3", "<-03>3")
    ∷ ("Etc/GMT+4", "<-04>4")
    ∷ ("Etc/GMT+5", "<-05>5")
    ∷ ("Etc/GMT+6", "<-06>6")
    ∷ ("Etc/GMT+7", "<-07>7")
    ∷ ("Etc/GMT+8", "<-08>8")
    ∷ ("Etc/GMT+9", "<-09>9")
    ∷ ("Etc/GMT+10", "<-10>10")
    ∷ ("Etc/GMT+11", "<-11>11")
    ∷ ("Etc/GMT+12", "<-12>12")
    ∷ ("Etc/UCT", "UTC0")
    ∷ ("Etc/UTC", "UTC0")
    ∷ ("Etc/Greenwich", "GMT0")
    ∷ ("Etc/Universal", "UTC0")
    ∷ ("Etc/Zulu", "UTC0")
    ∷ []
